-- ===== src/Model/Wire.antt =====
-- The words of the small enums: what prints is read back, and nothing else is.
use auwsx.Common.{String, refl, some, ◌↔◌, ◌≡◌}
use auwsx.Common.Words.{match_word-as_str}
use auwsx.Model.{
  CompletionPolicy, MergeMode, Role, local, main, manual, merge_mode_as_str, merge_mode_from_str,
  merge_mode_words, policy_as_str, policy_from_str, policy_words, pr, role_as_str, role_from_str,
  role_words,
}

merge_mode_trip : (m : MergeMode) → merge_mode_from_str (merge_mode_as_str m) ≡ some m
unfolding merge_mode_from_str merge_mode_as_str
merge_mode_trip local = refl
merge_mode_trip pr = refl

policy_trip : (p : CompletionPolicy) → policy_from_str (policy_as_str p) ≡ some p
unfolding policy_from_str policy_as_str
policy_trip manual = refl
policy_trip _ = refl

role_trip : (r : Role) → role_from_str (role_as_str r) ≡ some r
unfolding role_from_str role_as_str
role_trip main = refl
role_trip _ = refl

merge_mode_back :
    (w : String) (m : MergeMode) → merge_mode_from_str w ≡ some m → merge_mode_as_str m ≡ w
unfolding merge_mode_from_str merge_mode_as_str
merge_mode_back w m h = match_word-as_str merge_mode_as_str merge_mode_words w (assumption refl) h

policy_back : (w : String) (p : CompletionPolicy) → policy_from_str w ≡ some p → policy_as_str p ≡ w
unfolding policy_from_str policy_as_str
policy_back w p h = match_word-as_str policy_as_str policy_words w (assumption refl) h

role_back : (w : String) (r : Role) → role_from_str w ≡ some r → role_as_str r ≡ w
unfolding role_from_str role_as_str
role_back w r h = match_word-as_str role_as_str role_words w (assumption refl) h

-- For the merge mode, the completion policy and the agent role, a word is read as a value exactly
-- when it is the word that prints for the value.
pub column_words :
    ((w : String) (m : MergeMode) → (merge_mode_from_str w ≡ some m) ↔ (merge_mode_as_str m ≡ w))
    × ((w : String) (p : CompletionPolicy) → (policy_from_str w ≡ some p) ↔ (policy_as_str p ≡ w))
    × ((w : String) (r : Role) → (role_from_str w ≡ some r) ↔ (role_as_str r ≡ w))
column_words = (
  λ w m. (merge_mode_back w m, λ e. rw (← e) (merge_mode_trip m)),
  λ w p. (policy_back w p, λ e. rw (← e) (policy_trip p)),
  λ w r. (role_back w r, λ e. rw (← e) (role_trip r)),
)

-- ===== src/Status/Wire.antt =====
-- The words of the SQLite `status` column and of the IPC wire (`as_str`, `from_str` of state.rs).
use auwsx.Common.{String, refl, some, ◌↔◌, ◌≡◌}
use auwsx.Common.Words.{match_word-as_str}
use auwsx.Status.{IssueStatus, as_str, from_str, new, status_words}

from_str-as_str : (s : IssueStatus) → from_str (as_str s) ≡ some s
unfolding from_str as_str
from_str-as_str new = refl
from_str-as_str _ = refl

-- A word parses to a status exactly when it is the word that prints for that status: the round trip
-- in both directions, and every other text is refused.
pub as_str-from_str : (w : String) (s : IssueStatus) → (from_str w ≡ some s) ↔ (as_str s ≡ w)
unfolding from_str as_str
as_str-from_str w s = (
  λ h. match_word-as_str as_str status_words w (assumption refl) h,
  λ e. rw (← e) (from_str-as_str s),
)

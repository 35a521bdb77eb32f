-- ===== src/Store/Findings.antt =====
-- crates/auwsx-core/src/db/findings.rs: the review findings of an issue. The foreign key makes an insert
-- for an issue that does not exist fail.
use auwsx.Common.{
  Bool, List, Option, String, Text, [], err, false, filter, find, if◌then◌else◌, map, none, ok,
  some, true, ℕ, ◌&&◌, ◌++◌, ◌==◌, ◌∷◌,
}
use auwsx.Common.Words.{match_word}
use auwsx.Store.Table.{count_where, order_by, update_where}
use auwsx.Store.Rows.{
  Db, Finding, FindingStatus, Op, Rowids, Severity, accepted, blocker, dismissed_finding,
  finding_not_found, has_issue_id, issue_not_found, major, minor, nit, open_finding, rejected,
}

unfoldable pub severity_as_str : Severity → String
severity_as_str blocker = "blocker"
severity_as_str major = "major"
severity_as_str minor = "minor"
severity_as_str nit = "nit"

abbrev pub severity_words : List (String × Severity)
severity_words = ("blocker", blocker) ∷ ("major", major) ∷ ("minor", minor) ∷ ("nit", nit) ∷ []

unfoldable pub severity_from_str : String → Option Severity
unfolding match_word
severity_from_str s = match_word severity_words s

unfoldable pub finding_status_as_str : FindingStatus → String
finding_status_as_str open_finding = "open"
finding_status_as_str accepted = "accepted"
finding_status_as_str rejected = "rejected"
finding_status_as_str dismissed_finding = "dismissed"

abbrev pub finding_status_words : List (String × FindingStatus)
finding_status_words =
    ("open", open_finding)
    ∷ ("accepted", accepted)
    ∷ ("rejected", rejected)
    ∷ ("dismissed", dismissed_finding)
    ∷ []

unfoldable pub finding_status_from_str : String → Option FindingStatus
unfolding match_word
finding_status_from_str s = match_word finding_status_words s

-- `status = 'open'`
abbrev pub is_open_status : FindingStatus → Bool
is_open_status open_finding = true
is_open_status _ = false

abbrev pub has_finding_id : ℕ → Finding → Bool
has_finding_id id finding = finding.id == id

pub record NewFinding : Type 0 where
  pub issue_id : ℕ
  pub review_round : ℕ
  pub severity : Severity
  pub lens : Option Text
  pub title : Text
  pub detail : Option Text
  pub file_ref : Option Text

unfoldable pub new_finding : ℕ → NewFinding → ℕ → Finding
new_finding id f now = record {
  id = id;
  issue_id = f.issue_id;
  review_round = f.review_round;
  severity = f.severity;
  lens = f.lens;
  title = f.title;
  detail = f.detail;
  file_ref = f.file_ref;
  status = open_finding;
  adjudication = none;
  created_at = now;
  resolved_at = none;
}

unfoldable pub add_finding_row : Rowids → NewFinding → ℕ → Op ℕ
unfolding count_where new_finding
add_finding_row rowids f now db =
    let id = rowids.next (map (λ (x : Finding). x.id) db.findings) in
    if count_where (has_issue_id f.issue_id) db.issues == 0
    then (err (issue_not_found f.issue_id), db)
    else (ok id, record db { findings = db.findings ++ new_finding id f now ∷ [] })

unfoldable pub get_finding : ℕ → Db → Option Finding
unfolding find
get_finding id db = find (has_finding_id id) db.findings

unfoldable pub list_findings_by_issue : ℕ → Db → List Finding
unfolding filter order_by
list_findings_by_issue issue_id db =
    order_by (λ f. f.id) (filter (λ (f : Finding). f.issue_id == issue_id) db.findings)

unfoldable pub list_open_findings : ℕ → Db → List Finding
unfolding filter order_by
list_open_findings issue_id db =
    order_by (λ f. f.id)
      (filter (λ (f : Finding). f.issue_id == issue_id && is_open_status f.status) db.findings)

unfoldable pub resolve_finding : ℕ → FindingStatus → Option Text → ℕ → Op (Unit {0})
unfolding count_where update_where
resolve_finding id status adjudication now db =
    if count_where (has_finding_id id) db.findings == 0 then (err (finding_not_found id), db) else (
      ok tt,
      record db {
        findings =
            update_where (has_finding_id id)
              (λ (f : Finding). record f {
                status = status;
                adjudication = adjudication;
                resolved_at = some now;
              })
              db.findings;
      },
    )

unfoldable pub accept_finding_row : ℕ → Text → ℕ → Op (Unit {0})
unfolding resolve_finding
accept_finding_row id rationale now = resolve_finding id accepted (some rationale) now

unfoldable pub reject_finding_row : ℕ → Text → ℕ → Op (Unit {0})
unfolding resolve_finding
reject_finding_row id rationale now = resolve_finding id rejected (some rationale) now

unfoldable pub dismiss_finding_row : ℕ → ℕ → Op (Unit {0})
unfolding resolve_finding
dismiss_finding_row id now = resolve_finding id dismissed_finding none now

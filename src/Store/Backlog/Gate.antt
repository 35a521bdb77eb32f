-- ===== src/Store/Backlog/Gate.antt =====
-- The admission gate: no pending item ever becomes work.
use auwsx.Common.{
  &&-true, ==_iff, All, All-Memᴰ, All-map, Bool, Bool-cases, List, Memᴰ, Option, Option-cases, [],
  arith, false, find, inl, inr, is_none, none, not, refl, some, subst, sym, true, ℕ, ◌==◌, ◌||◌,
  ◌∷◌, ◌≡◌,
}
use auwsx.Store.Exec.{>>=-keeps, pure, ◌>>◌}
use auwsx.Store.Table.{All-update, count-none, count_where, find-Memᴰ, update_where}
use auwsx.Store.Rows.{
  Approval, BacklogItem, Db, Rowids, approval_eq, approved, dismissed, has_item_id, pending,
}
use auwsx.Store.Issues.{create_issue}
use auwsx.Store.Backlog.{
  approve, approve_if_pending, consume_item, get_item, is_unconsumed, mark_consumed, promote_found,
  promote_one, promote_open, set_approval, triage_item, update_items,
}

abbrev pub is_pending : BacklogItem → Bool
is_pending item = approval_eq item.approval pending

-- not consumed, or past the gate
abbrev pub is_admitted : BacklogItem → Bool
is_admitted item = is_none item.consumed_issue_id || not (is_pending item)

abbrev pub GateHolds : List BacklogItem → Type 0
GateHolds rows = All (λ (item : BacklogItem). is_admitted item ≡ true) rows

-- The rows of the id are past the gate.
abbrev pub HasPassed : ℕ → List BacklogItem → Type 0
HasPassed id rows =
    All (λ (item : BacklogItem). (item.id == id) ≡ true → is_pending item ≡ false) rows

abbrev pub HasUniqueItems : List BacklogItem → Type 0
HasUniqueItems rows = (a b : BacklogItem) → Memᴰ a rows → Memᴰ b rows → a.id ≡ b.id → a ≡ b

pub consume-GateHolds :
    (id issue_id now : ℕ) (rows : List BacklogItem)
    → HasPassed id rows
    → GateHolds rows
    → GateHolds (update_where (is_unconsumed id) (consume_item issue_id now) rows)
unfolding update_where
consume-GateHolds id issue_id now [] passed h = tt
consume-GateHolds id issue_id now (r ∷ rows) passed h = elim (Bool-cases (is_unconsumed id r)) [
  | inl e ↦
      let own = (&&-true (r.id == id) (is_none r.consumed_issue_id) e).0 in
      rw e (ground (arith, passed.0 own), consume-GateHolds id issue_id now rows passed.1 h.1)
  | inr e ↦ rw e (h.0, consume-GateHolds id issue_id now rows passed.1 h.1)
]

module _ (id : ℕ) (approval : Approval) (now : ℕ)
    (settled : approval_eq approval pending ≡ false) where
  set_approval-GateHolds :
      (db : Db) → GateHolds db.backlog → GateHolds (set_approval id approval now db).1.backlog
  unfolding set_approval update_items
  set_approval-GateHolds db h = elim (Bool-cases (count_where (has_item_id id) db.backlog == 0)) [
    | inl e ↦ rw e h
    | inr e ↦ rw e (
        All-update (λ (item : BacklogItem). is_admitted item ≡ true)
          (λ (item : BacklogItem). is_admitted item ≡ true) (has_item_id id)
          (λ item. record item { approval = approval; resolved_at = some now }) db.backlog
          (λ item old hit. ground (arith, settled)) (λ item old miss. old) h)
  ]

  set_approval-HasPassed : (db : Db) → HasPassed id (set_approval id approval now db).1.backlog
  unfolding set_approval update_items
  set_approval-HasPassed db = elim (Bool-cases (count_where (has_item_id id) db.backlog == 0)) [
    | inl e ↦ rw e (
        All-map (λ (item : BacklogItem). has_item_id id item ≡ false)
          (λ (item : BacklogItem). (item.id == id) ≡ true → is_pending item ≡ false) db.backlog
          (λ item miss own. absurd (ground arith)) (count-none (has_item_id id) db.backlog e))
    | inr e ↦ rw e (
        All-update (λ (item : BacklogItem). Unit {0})
          (λ (item : BacklogItem). (item.id == id) ≡ true → is_pending item ≡ false)
          (has_item_id id) (λ item. record item { approval = approval; resolved_at = some now })
          db.backlog (λ item old hit own. settled) (λ item old miss own. absurd (ground arith))
          (All-Memᴰ (λ (item : BacklogItem). Unit {0}) db.backlog (λ x m. tt)))
  ]

mark_consumed-GateHolds :
    (id issue_id now : ℕ) (db : Db)
    → HasPassed id db.backlog
    → GateHolds db.backlog
    → GateHolds (mark_consumed id issue_id now db).1.backlog
unfolding mark_consumed update_items
mark_consumed-GateHolds id issue_id now db passed h =
    elim (Bool-cases (count_where (is_unconsumed id) db.backlog == 0)) [
      | inl e ↦ rw e h
      | inr e ↦ rw e (consume-GateHolds id issue_id now db.backlog passed h)
    ]

triage_item-GateHolds :
    (rowids : Rowids) (project_id now : ℕ) (item : BacklogItem) (db : Db)
    → HasPassed item.id db.backlog
    → GateHolds db.backlog
    → GateHolds (triage_item rowids project_id now item db).1.backlog
unfolding triage_item create_issue
triage_item-GateHolds rowids project_id now item db passed h =
    >>=-keeps (λ (v : Db). GateHolds v.backlog) (create_issue rowids project_id item.text none now)
      (λ issue_id. mark_consumed item.id issue_id now >> pure issue_id) db h
      (λ issue_id.
        >>=-keeps (λ (v : Db). GateHolds v.backlog) (mark_consumed item.id issue_id now)
          (λ _. pure issue_id) (create_issue rowids project_id item.text none now db).1
          (mark_consumed-GateHolds item.id issue_id now
            (create_issue rowids project_id item.text none now db).1 passed h)
          (λ _.
            mark_consumed-GateHolds item.id issue_id now
              (create_issue rowids project_id item.text none now db).1 passed h))

-- A listed item that is past the gate speaks for all rows of its id.
pub unique-HasPassed :
    (item : BacklogItem) (rows : List BacklogItem)
    → HasUniqueItems rows
    → Memᴰ item rows
    → is_pending item ≡ false
    → HasPassed item.id rows
unique-HasPassed item rows unique m h =
    All-Memᴰ (λ (row : BacklogItem). (row.id == item.id) ≡ true → is_pending row ≡ false) rows
      (λ row at own.
        subst (λ (x : BacklogItem). is_pending x ≡ false)
          (unique item row m at (sym ((==_iff row.id item.id).0 own))) h)

module _ (item : BacklogItem) (now : ℕ) (db : Db) (unique : HasUniqueItems db.backlog)
    (m : Memᴰ item db.backlog) (h : GateHolds db.backlog) where
  pub approve_if_pending-passes :
      GateHolds (approve_if_pending item now db).1.backlog
      × HasPassed item.id (approve_if_pending item now db).1.backlog
  unfolding approve_if_pending approve
  approve_if_pending-passes = elim (Bool-cases (is_pending item)) [
    | inl e ↦ rw e (
      set_approval-GateHolds item.id approved now refl db h,
      set_approval-HasPassed item.id approved now refl db,
    )
    | inr e ↦ rw e (h, unique-HasPassed item db.backlog unique m e)
  ]

  promote_open-GateHolds :
      (rowids : Rowids) (consumed : Option ℕ)
      → GateHolds (promote_open rowids item now consumed db).1.backlog
  unfolding promote_open
  promote_open-GateHolds rowids (some issue_id) = h
  promote_open-GateHolds rowids none =
      >>=-keeps (λ (v : Db). GateHolds v.backlog) (approve_if_pending item now)
        (λ _. triage_item rowids item.project_id now item) db approve_if_pending-passes.0
        (λ _.
          triage_item-GateHolds rowids item.project_id now item (approve_if_pending item now db).1
            approve_if_pending-passes.1 approve_if_pending-passes.0)

  promote_found-GateHolds :
      (rowids : Rowids) → GateHolds (promote_found rowids item now db).1.backlog
  unfolding promote_found
  promote_found-GateHolds rowids = elim (Bool-cases (approval_eq item.approval dismissed)) [
    | inl e ↦ rw e h
    | inr e ↦ rw e (promote_open-GateHolds rowids item.consumed_issue_id)
  ]

-- If the ids of the backlog rows are unique, promoting any item keeps the gate: a row that has an
-- issue is never pending. An error on the way is no exception.
pub promote-GateHolds :
    (rowids : Rowids) (item_id now : ℕ) (db : Db)
    → HasUniqueItems db.backlog
    → GateHolds db.backlog
    → GateHolds (promote_one rowids item_id now db).1.backlog
unfolding promote_one get_item
promote-GateHolds rowids item_id now db unique h =
    elim (Option-cases (find (has_item_id item_id) db.backlog)) [
      | inl e ↦ rw e h
      | inr (item, e) ↦ rw e (
          promote_found-GateHolds item now db unique
            (find-Memᴰ (has_item_id item_id) db.backlog e).0 h rowids)
    ]

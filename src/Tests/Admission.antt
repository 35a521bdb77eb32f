-- ===== src/Tests/Admission.antt =====
-- The admission gate, at concrete inputs.
use auwsx.Common.{Memᴰ, ap, arith, refl, sym, ◌∙◌}
use auwsx.Store.Rows.{BacklogItem}
use auwsx.Store.Backlog.{promote_one}
use auwsx.Store.Backlog.Gate.{GateHolds, HasUniqueItems, promote-GateHolds}
use auwsx.Store.Routing.{route_one_now}
use auwsx.Store.Routing.Admission.{route-GateHolds}
use auwsx.Tests.Fixtures.{demo_db, demo_rowids}

unique_items : HasUniqueItems demo_db.backlog
unique_items a b (Memᴰ.head e) (Memᴰ.head f) h = e ∙ sym f
unique_items a b (Memᴰ.head e) (Memᴰ.tail (Memᴰ.head f)) h =
    absurd (omega (arith, h, ap (λ (x : BacklogItem). x.id) e, ap (λ (x : BacklogItem). x.id) f))
unique_items a b (Memᴰ.tail (Memᴰ.head e)) (Memᴰ.head f) h =
    absurd (omega (arith, h, ap (λ (x : BacklogItem). x.id) e, ap (λ (x : BacklogItem). x.id) f))
unique_items a b (Memᴰ.tail (Memᴰ.head e)) (Memᴰ.tail (Memᴰ.head f)) h = e ∙ sym f
unique_items a b (Memᴰ.tail (Memᴰ.tail m)) _ h = elim m [ ]
unique_items a b _ (Memᴰ.tail (Memᴰ.tail m)) h = elim m [ ]

gate_holds : GateHolds demo_db.backlog
gate_holds = (refl, (refl, tt))

promote-GateHolds_example : GateHolds (promote_one demo_rowids 5 70 demo_db).1.backlog
promote-GateHolds_example = promote-GateHolds demo_rowids 5 70 demo_db unique_items gate_holds

route-GateHolds_example : GateHolds (route_one_now demo_rowids 5 70 demo_db).1.backlog
route-GateHolds_example = route-GateHolds demo_rowids 5 70 demo_db unique_items gate_holds

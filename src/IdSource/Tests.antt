-- ===== src/IdSource/Tests.antt =====
-- Runs of the id source, and its theorems at concrete histories.
use mathlib.Core.List.{Nodup}
use netmate_flowcalc.Common.{◌≡◌, refl, List, [], ◌∷◌, arith}
use netmate_flowcalc.IdSource.{Call, new, free, make, new_id, free_id, issued}
use netmate_flowcalc.IdSource.Issue.{issued-Nodup, new_id-free_id_collides}

abbrev history : List Call
history = new ∷ new ∷ free 0 ∷ new ∷ []

reuse : issued (make 0) (new ∷ new ∷ free 0 ∷ new ∷ new ∷ []) ≡ 0 ∷ 1 ∷ 0 ∷ 1 ∷ []
unfolding issued new_id free_id make
reuse = refl

issued-Nodup_example : Nodup (issued (make 1) history)
issued-Nodup_example = issued-Nodup 1 (omega arith) history (omega arith)

new_id-free_id_collides_example :
    let (a, s₁) = new_id (make 0) in
    let (b, s₂) = new_id s₁ in let (c, s₃) = new_id (free_id s₂ a) in (c ≡ a) × ((new_id s₃).0 ≡ b)
new_id-free_id_collides_example =
    new_id-free_id_collides (make 0) (unfold make in refl) (unfold make in refl)
      (unfold make in omega arith)

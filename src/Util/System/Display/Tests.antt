-- ===== src/Util/System/Display/Tests.antt =====
-- The text of a system with one core, with numbers written as so many strokes.
use schtest.Prelude.{ℕ, zero, suc, ◌≡◌, refl, ap, sym, List, [], ◌∷◌, ◌++◌, replicate, drop, arith}
use schtest.Prelude.Int.{ℤ, pos, negsuc}
use schtest.Prelude.Text.{codes}
use schtest.Util.System.{Node, logical_cpus, new}
use schtest.Util.System.Display.{fmt_system}
use schtest.Util.System.Display.Unique.{TellsBefore, fmt_system-Tells, differ}

abbrev strokes : ℕ → List ℕ
strokes n = replicate n 124

abbrev signed : ℤ → List ℕ
signed (pos n) = strokes n
signed (negsuc n) = 45 ∷ strokes n

strokes-TellsBefore : (c : ℕ) → (c ≡ 124 → ⊥) → TellsBefore c strokes
strokes-TellsBefore c other zero zero r s e = (refl, ap (drop 1) e)
strokes-TellsBefore c other zero (suc n) r s e =
    absurd (differ c 124 r (strokes n ++ (c ∷ s)) other e)
strokes-TellsBefore c other (suc m) zero r s e =
    absurd (differ 124 c (strokes m ++ (c ∷ r)) s (λ h. other (omega arith)) e)
strokes-TellsBefore c other (suc m) (suc n) r s e =
    let (h, k) = strokes-TellsBefore c other m n r s (ap (drop 1) e) in (ap suc h, k)

comma :
    (n : ℕ)
    → (r : List ℕ) → (m : ℕ) → (s : List ℕ) → strokes n ++ (44 ∷ r) ≡ 45 ∷ (strokes m ++ (44 ∷ s))
    → ⊥
comma zero r m s e = differ 44 45 r (strokes m ++ (44 ∷ s)) (λ h. omega (arith, h)) e
comma (suc n) r m s e =
    differ 124 45 (strokes n ++ (44 ∷ r)) (strokes m ++ (44 ∷ s)) (λ h. omega (arith, h)) e

signed-TellsBefore : TellsBefore 44 signed
signed-TellsBefore (pos m) (pos n) r s e =
    let (h, k) = strokes-TellsBefore 44 (λ h. omega (arith, h)) m n r s e in (ap pos h, k)
signed-TellsBefore (pos m) (negsuc n) r s e = absurd (comma m r n s e)
signed-TellsBefore (negsuc m) (pos n) r s e = absurd (comma n s m r (sym e))
signed-TellsBefore (negsuc m) (negsuc n) r s e =
    let (h, k) = strokes-TellsBefore 44 (λ h. omega (arith, h)) m n r s (ap (drop 1) e) in
    (ap negsuc h, k)

abbrev one_node : List Node
one_node =
    record {
      id = pos 0;
      complexes =
          record {
            id = pos 1;
            cores = record { id = negsuc 0; hyperthreads = record { id = 2 } ∷ [] } ∷ [];
          }
          ∷ [];
    }
    ∷ []

text :
    fmt_system strokes signed (new one_node) []
    ≡ codes
        "System{nodes=[Node{id=, complexes=[CoreComplex{id=|, cores=[Core{id=-, hyperthreads=[Hyperthread{id=||}]}]}]}], logical_cpus=|}"
unfolding fmt_system new logical_cpus
text = refl

fmt_system-Tells_example : (new one_node ≡ new one_node) × (codes "." ≡ codes ".")
fmt_system-Tells_example =
    fmt_system-Tells strokes signed (strokes-TellsBefore 125 (λ h. omega (arith, h)))
      signed-TellsBefore one_node one_node (codes ".") (codes ".") refl

-- ===== src/Common/Arrival.antt =====
-- The order in which the results of concurrent work arrive: any order of the list.
use mathlib.Core.Path.{◌≡◌, sym, subst}
use mathlib.Core.List.{List, [], ◌∷◌, ◌++◌}
use my_sync.Common.Lists.{All, All-append}

-- One of the elements comes first, and the others follow in any order.
pub data Arrives {ℓ} {A : Type ℓ} : List A → List A → Type ℓ where
  all_here : Arrives [] []
  comes_next :
      {all rest : List A} (before after : List A) (x : A)
      → all ≡ before ++ (x ∷ after)
      → Arrives (before ++ after) rest
      → Arrives all (x ∷ rest)

module _ {ℓ κ} {A : Type ℓ} (P : A → Type κ) where
  All-split : (xs ys : List A) → All P (xs ++ ys) → All P xs × All P ys
  All-split [] ys h = (tt, h)
  All-split (x ∷ xs) ys h = let (hx, hy) = All-split xs ys h.1 in ((h.0, hx), hy)

  pub All-Arrives : {xs ys : List A} → Arrives xs ys → All P xs → All P ys
  All-Arrives all_here h = h
  All-Arrives (comes_next before after x e rest) h =
      let (hb, ha) = All-split before (x ∷ after) (subst (All P) e h) in
      (ha.0, All-Arrives rest (All-append P before after hb ha.1))

  pub All-Arrives_back : {xs ys : List A} → Arrives xs ys → All P ys → All P xs
  All-Arrives_back all_here h = h
  All-Arrives_back (comes_next before after x e rest) h =
      let (hb, ha) = All-split before after (All-Arrives_back rest h.1) in
      subst (All P) (sym e) (All-append P before (x ∷ after) hb (h.0, ha))

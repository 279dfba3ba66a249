-- ===== src/Circuit/LightCone.antt =====
-- The past light cone of a circuit (include/qcircuit.hpp, `PastLightCone`) as a recursion on its gates.
use mathlib.Core.List.{append_assoc}
use mathlib.Core.Path.{subst}
use qrack.Prelude.{
  ℕ, ◌==◌, ◌≡◌, refl, sym, ap, ap₂, ◌∙◌, arith, Bool, true, false, ◌||◌, List, [], ◌∷◌, ◌++◌,
  if◌then◌else◌,
}
use qrack.Circuit.Gate.{Gate, has, insert}
use qrack.Circuit.Cone.{Circuit, touches, insert_all, cone, reversed, past_light_cone}

if-apply :
    {X Y : Type 0} (f : X → Y) (b : Bool) (x y : X)
    → (if b then f x else f y) ≡ f (if b then x else y)
if-apply f true x y = refl
if-apply f false x y = refl

has-insert : (k c : ℕ) (xs : List ℕ) → has k (insert c xs) ≡ (c == k || has k xs)
has-insert k c [] = refl
has-insert k c (x ∷ xs) = ground (arith, has-insert k c xs)

has-insert_all :
    (k : ℕ) (qubits cs : List ℕ) → has k (insert_all qubits cs) ≡ (has k cs || has k qubits)
unfolding insert_all
has-insert_all k qubits [] = refl
has-insert_all k qubits (c ∷ cs) =
    has-insert_all k (insert c qubits) cs ∙ ground (arith, has-insert k c qubits)

module _ {A : Type 0} where
  -- Whether a gate of the list has the qubit as its target or as a control.
  abbrev pub uses : ℕ → List (Gate A) → Bool
  uses k [] = false
  uses k (g ∷ gs) = (g.target == k || has k g.controls) || uses k gs

  abbrev pub any_reached : List ℕ → List (Gate A) → List ℕ → Bool
  any_reached qubits gs [] = false
  any_reached qubits gs (c ∷ cs) = (has c qubits || uses c gs) || any_reached qubits gs cs

  -- The gates that can influence the qubits: those that share a qubit with them, or with a later gate
  -- that can.
  abbrev pub light_cone : List ℕ → List (Gate A) → List (Gate A)
  light_cone qubits [] = []
  light_cone qubits (g ∷ gs) =
      let rest = light_cone qubits gs in
      if any_reached qubits rest (g.target ∷ g.controls) then g ∷ rest else rest

  reversed-append : (xs ys : List (Gate A)) → reversed xs ys ≡ reversed xs [] ++ ys
  reversed-append [] ys = refl
  reversed-append (x ∷ xs) ys =
      reversed-append xs (x ∷ ys)
      ∙ sym (append_assoc (reversed xs []) (x ∷ []) ys)
      ∙ ap (λ zs. zs ++ ys) (sym (reversed-append xs (x ∷ [])))

  reversed_last :
      (xs ys : List (Gate A)) (g : Gate A) → reversed (xs ++ g ∷ []) ys ≡ g ∷ reversed xs ys
  reversed_last [] ys g = refl
  reversed_last (x ∷ xs) ys g = reversed_last xs (x ∷ ys) g

  -- The loop with one more gate, the earliest.
  cone_last :
      (qubits : List ℕ) (xs : List (Gate A)) (g : Gate A)
      → cone qubits (xs ++ g ∷ []) ≡ (
          let r = cone qubits xs in
          if has g.target r.1 || touches r.1 g.controls
          then (r.0 ++ g ∷ [], insert_all (insert g.target r.1) g.controls)
          else r)
  unfolding cone
  cone_last qubits [] g = refl
  cone_last qubits (x ∷ xs) g =
      let grown = insert_all (insert x.target qubits) x.controls in
      let next : List (Gate A) × List ℕ → List (Gate A) × List ℕ = λ r.
        if has g.target r.1 || touches r.1 g.controls
        then (r.0 ++ g ∷ [], insert_all (insert g.target r.1) g.controls)
        else r in
      let b = has x.target qubits || touches qubits x.controls in
      let r = cone grown xs in
      let keep : List (Gate A) × List ℕ → List (Gate A) × List ℕ = λ r. (x ∷ r.0, r.1) in
      ap₂ (λ t u. if b then t else u)
        (ap keep (cone_last grown xs g)
          ∙ sym (if-apply keep (has g.target r.1 || touches r.1 g.controls) _ r))
        (cone_last qubits xs g)
      ∙ if-apply next b (keep r) (cone qubits xs)

  touches-any_reached :
      (qubits s : List ℕ) (gs : List (Gate A)) (cs : List ℕ)
      → ((k : ℕ) → has k s ≡ (has k qubits || uses k gs))
      → touches s cs ≡ any_reached qubits gs cs
  unfolding touches
  touches-any_reached qubits s gs [] h = refl
  touches-any_reached qubits s gs (c ∷ cs) h = ap₂ ◌||◌ (h c) (touches-any_reached qubits s gs cs h)

  -- The loop on the gates from the last to the first: its gates, turned again, and its set.
  cone-light_cone :
      (qubits : List ℕ) (gs : List (Gate A))
      → (let r = cone qubits (reversed gs []) in
          (reversed r.0 [] ≡ light_cone qubits gs)
          × ((k : ℕ) → has k r.1 ≡ (has k qubits || uses k (light_cone qubits gs))))
  unfolding cone
  cone-light_cone qubits [] = (refl, λ k. ground arith)
  cone-light_cone qubits (g ∷ gs) =
      let r = cone qubits (reversed gs []) in
      let (same, set_of) = cone-light_cone qubits gs in
      let rest = light_cone qubits gs in
      let test = has g.target r.1 || touches r.1 g.controls in
      let tests : any_reached qubits rest (g.target ∷ g.controls) ≡ test =
        sym (ap₂ ◌||◌ (set_of g.target) (touches-any_reached qubits r.1 rest g.controls set_of)) in
      let P : List (Gate A) × List ℕ → List (Gate A) → Type 0 =
        λ t l. (reversed t.0 [] ≡ l) × ((k : ℕ) → has k t.1 ≡ (has k qubits || uses k l)) in
      let step : P
          (if test then (r.0 ++ g ∷ [], insert_all (insert g.target r.1) g.controls) else r)
          (if test then g ∷ rest else rest) =
        both P test (r.0 ++ g ∷ [], insert_all (insert g.target r.1) g.controls) r (g ∷ rest) rest
          (
            reversed_last r.0 [] g ∙ ap (λ l. g ∷ l) same,
            λ k.
                has-insert_all k (insert g.target r.1) g.controls
                ∙ ground (arith, has-insert k g.target r.1, set_of k),
          )
          (same, set_of) in
      subst (λ b. P (cone qubits (reversed gs (g ∷ []))) (if b then g ∷ rest else rest)) (sym tests)
        (subst (λ t. P t (if test then g ∷ rest else rest))
          (sym
            (ap (cone qubits) (reversed-append gs (g ∷ [])) ∙ cone_last qubits (reversed gs []) g))
          step)
    where
      both :
          {X Y : Type 0} (P : X → Y → Type 0) (b : Bool) (x x' : X) (y y' : Y)
          → P x y
          → P x' y'
          → P (if b then x else x') (if b then y else y')
      both P true x x' y y' p q = p
      both P false x x' y y' p q = q

  -- `PastLightCone` keeps, in their order, exactly the gates that have a target or a control among the
  -- given qubits or in common with a later gate that is kept, and the set that it leaves has the given
  -- qubits and those of the gates kept, and no others.
  pub past_light_cone-light_cone :
      (qubits : List ℕ) (c : Circuit A)
      → (let r = past_light_cone qubits c in
          (r.0.gates ≡ light_cone qubits c.gates)
          × ((k : ℕ) → has k r.1 ≡ (has k qubits || uses k (light_cone qubits c.gates))))
  unfolding past_light_cone
  past_light_cone-light_cone qubits c = cone-light_cone qubits c.gates

-- ===== src/Base/Feed.antt =====
-- A scan that hands its finds to a callback one by one, until the callback says to stop.
use mathlib.Core.Path.{◌≡◌, refl, ap, fun_ext}
use mathlib.Core.Bool.{Bool, true, false}
use mathlib.Core.List.{List, [], ◌∷◌, ◌++◌}

abbrev pub go_on {ℓ} : {S : Type ℓ} → Bool × S → (S → Bool × S) → Bool × S
go_on (true, s) k = k s
go_on (false, s) k = (false, s)

-- The calls of `cb` on the items in order; the result is false if a call returned false.
abbrev pub feed {ℓ κ} : {X : Type κ} {S : Type ℓ} → (X → S → Bool × S) → List X → S → Bool × S
feed cb [] s = (true, s)
feed cb (x ∷ xs) s = go_on (cb x s) (λ s'. feed cb xs s')

go_on_assoc {ℓ} :
    {S : Type ℓ} (r : Bool × S) (f g h : S → Bool × S)
    → ((s : S) → h s ≡ go_on (f s) g)
    → go_on r h ≡ go_on (go_on r f) g
go_on_assoc (true, s) f g h e = e s
go_on_assoc (false, s) f g h e = refl

pub feed-append {ℓ κ} :
    {X : Type κ} {S : Type ℓ} (cb : X → S → Bool × S) (xs ys : List X) (s : S)
    → feed cb (xs ++ ys) s ≡ go_on (feed cb xs s) (feed cb ys)
feed-append cb [] ys s = refl
feed-append cb (x ∷ xs) ys s =
    go_on_assoc (cb x s) (feed cb xs) (feed cb ys) (feed cb (xs ++ ys)) (feed-append cb xs ys)

pub go_on_pure {ℓ} : {S : Type ℓ} (r : Bool × S) → go_on r (λ s. (true, s)) ≡ r
go_on_pure (true, s) = refl
go_on_pure (false, s) = refl

-- The calls for `xs`, then the call for `x`, then the rest.
pub feed_around {ℓ κ} :
    {X : Type κ} {S : Type ℓ} (cb : X → S → Bool × S) (xs : List X) (x : X) (ys : List X) (s : S)
    (m : Bool × S) (k : S → Bool × S)
    → m ≡ feed cb xs s
    → ((t : S) → k t ≡ feed cb ys t)
    → go_on m (λ t. go_on (cb x t) k) ≡ feed cb (xs ++ (x ∷ ys)) s
feed_around cb xs x ys s m k e f =
    rw (feed-append cb xs (x ∷ ys) s, e)
      (ap (go_on (feed cb xs s)) (fun_ext λ t. ap (go_on (cb x t)) (fun_ext f)))

-- ===== src/Tracees/Post.antt =====
-- What holds behind a command that does not fault.
use abyss.Base.{◌≡◌, refl, Bool, true, false, Option, none, some, if◌then◌else◌}
use abyss.Tracees.Store.{World, Cmd, and_then}

pub data Post {Memory A : Type 0} (Q : A → World Memory → Type 0)
    : Option (A × World Memory) → Type 0 where
  faults : Post Q none
  ends : {a : A} {w : World Memory} → Q a w → Post Q (some (a, w))

module _ {Memory A : Type 0} {Q : A → World Memory → Type 0} where
  pub mono :
      {R : A → World Memory → Type 0} {r : Option (A × World Memory)}
      → Post Q r
      → ((a : A) (w : World Memory) → Q a w → R a w)
      → Post R r
  mono faults weaken = faults
  mono (ends h) weaken = ends (weaken _ _ h)

  pub bind :
      {B : Type 0} {R : B → World Memory → Type 0} {r : Option (A × World Memory)}
      {next : A → Cmd Memory B}
      → Post Q r
      → ((a : A) (w : World Memory) → Q a w → Post R (next a w))
      → Post R (and_then r next)
  bind faults rest = faults
  bind (ends h) rest = rest _ _ h

  pub both :
      {R : A → World Memory → Type 0} {r : Option (A × World Memory)}
      → Post Q r
      → Post R r
      → Post (λ a w. Q a w × R a w) r
  both faults k = faults
  both (ends h) (ends k) = ends (h, k)

  pub branch :
      (b : Bool) (x y : Cmd Memory A) {w : World Memory}
      → (b ≡ true → Post Q (x w))
      → (b ≡ false → Post Q (y w))
      → Post Q ((if b then x else y) w)
  branch true x y h k = h refl
  branch false x y h k = k refl

  -- The same for a test on the world.
  pub choose :
      (b : Bool) (r r' : Option (A × World Memory))
      → (b ≡ true → Post Q r)
      → (b ≡ false → Post Q r')
      → Post Q (if b then r else r')
  choose true r r' h k = h refl
  choose false r r' h k = k refl

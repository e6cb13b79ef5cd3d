-- ===== src/Game/Systems.antt =====
-- server/internal/game/systems: the arithmetic of movement (movement.go) and of combat (combat.go). An
-- error of `ResolveDamage` is `none`.
use the_return_of_the_odysse.Base.{
  ℕ, Bool, true, false, ◌&&◌, ◌||◌, Option, none, some, if◌then◌else◌,
}
use the_return_of_the_odysse.Base.Floats.{Float64, zero_f, one_f, odd_f}
use the_return_of_the_odysse.Game.Entity.{Vec2, Player, origin}

pub record DamageRequest (F : Type 0) : Type 0 where
  pub source_id : ℕ
  pub target_id : ℕ
  pub attack : F
  pub target_player : Bool

pub record DamageResolved (F : Type 0) : Type 0 where
  pub amount : F
  pub remaining_health : F
  pub killed : Bool

module _ {F : Type 0} ⦃f : Float64 F⦄ where
  open f use {lit, add, sub, mul, div, neg, abs, sqrt, fmin, fmax, hypot, lt, le, same}

  -- Both coordinates divided by `by`.
  abbrev pub divided : Vec2 F → F → Vec2 F
  divided v by = record { x = div v.x by; y = div v.y by }

  -- `UnitDirection`
  unfoldable pub unit_direction : Vec2 F → Vec2 F
  unit_direction v =
      let scale = fmax (abs v.x) (abs v.y) in
      let w = divided v scale in if same scale zero_f then origin else divided w (hypot w.x w.y)

  -- `if by > 1 { v.X /= by; v.Y /= by }`
  abbrev pub scaled_down : F → Vec2 F → Vec2 F
  scaled_down by v = if lt one_f by then divided v by else v

  -- `NormalizeDirection`
  unfoldable pub normalize_direction : Vec2 F → Vec2 F
  normalize_direction v =
      let w = scaled_down (fmax (abs v.x) (abs v.y)) v in scaled_down (hypot w.x w.y) w

  -- `math.Max(lo, math.Min(hi, v))`
  abbrev pub clamp : F → F → F → F
  clamp lo hi v = fmax lo (fmin hi v)

  -- `Move`
  unfoldable pub move : Player F → Vec2 F → F → F → Vec2 F → Vec2 F → Player F
  move p direction speed dt lo hi =
      let x = clamp lo.x hi.x (add (p.position).x (mul (mul direction.x speed) dt)) in
      let y = clamp lo.y hi.y (add (p.position).y (mul (mul direction.y speed) dt)) in
      record p {
        position = record { x = x; y = y };
        velocity = record { x = div (sub x (p.position).x) dt; y = div (sub y (p.position).y) dt };
      }

  -- The test of one value in `ResolveDamage`.
  abbrev pub bad_value : F → Bool
  bad_value v = odd_f v || lt v zero_f

  -- `ResolveDamage`
  unfoldable pub resolve_damage : F → F → F → Option (DamageResolved F)
  resolve_damage attack defense health =
      let amount = fmin health (div attack (add one_f (div defense (lit 100 0)))) in
      if bad_value attack || bad_value defense || bad_value health
      then none
      else some (record {
        amount = amount;
        remaining_health = sub health amount;
        killed = lt zero_f health && le health amount;
      })

  -- `SegmentCircle`: the fraction, and whether there is a contact.
  unfoldable pub segment_circle : Vec2 F → Vec2 F → Vec2 F → F → F × Bool
  segment_circle from to center radius =
      let dx = sub to.x from.x in
      let dy = sub to.y from.y in
      let fx = sub from.x center.x in
      let fy = sub from.y center.y in
      let c = sub (add (mul fx fx) (mul fy fy)) (mul radius radius) in
      let a = add (mul dx dx) (mul dy dy) in
      let b = add (mul fx dx) (mul fy dy) in
      let discriminant = sub (mul b b) (mul a c) in
      let t = div (sub (neg b) (sqrt discriminant)) a in
      if le c zero_f
      then (zero_f, true)
      else if same a zero_f
      then (zero_f, false)
      else if lt discriminant zero_f
      then (zero_f, false)
      else (t, le zero_f t && le t one_f)

-- ===== src/Json/Depth.antt =====
-- The stack walk of `exceedsMaxDepth` in src/interfaces/temporal-kv.ts, and the recursive depth.
use Prim.Native.Nat.{max}
use umbra_db.Prelude.{
  ℕ, zero, suc, ◌+◌, ◌<◌, ◌≡◌, refl, Bool, false, [], ◌∷◌, some, ltb, arith, ◌||◌, inl, inr,
  Bool-cases,
}
use umbra_db.Json.{
  Json, Items, Fields, null, bool, num, str, arr, obj, nil, cons, end, field, Stack, push_items,
  push_fields, push_children, depth_loop, nodes, nodes_items, nodes_fields, exceeds_max_depth,
}

-- How deep the values inside a value lie: a value with no value in it has depth 0.
mutual
  pub depth : Json → ℕ
  depth null = 0
  depth (bool b) = 0
  depth (num n) = 0
  depth (str s) = 0
  depth (arr xs) = depth_items xs
  depth (obj fs) = depth_fields fs

  pub depth_items : Items → ℕ
  depth_items nil = 0
  depth_items (cons x xs) = max (depth x + 1) (depth_items xs)

  pub depth_fields : Fields → ℕ
  depth_fields end = 0
  depth_fields (field k v fs) = max (depth v + 1) (depth_fields fs)

-- some value under the stack lies deeper than the limit
abbrev deep : ℕ → Stack → Bool
deep m [] = false
deep m ((v, d) ∷ stack) = ltb m (d + depth v) || deep m stack

abbrev size : Stack → ℕ
size [] = 0
size ((v, d) ∷ stack) = nodes v + size stack

push_items-size :
    (xs : Items) (d : ℕ) (st : Stack) → size (push_items xs d st) ≡ nodes_items xs + size st
unfolding push_items nodes
push_items-size nil d st = omega arith
push_items-size (cons x xs) d st = omega (arith, push_items-size xs d ((x, d) ∷ st))

push_fields-size :
    (fs : Fields) (d : ℕ) (st : Stack) → size (push_fields fs d st) ≡ nodes_fields fs + size st
unfolding push_fields nodes
push_fields-size end d st = omega arith
push_fields-size (field k v fs) d st = omega (arith, push_fields-size fs d ((v, d) ∷ st))

push_children-size :
    (v : Json) (d : ℕ) (st : Stack) → size (push_children v d st) + 1 ≡ nodes v + size st
unfolding push_children nodes
push_children-size (arr xs) d st = omega (arith, push_items-size xs d st)
push_children-size (obj fs) d st = omega (arith, push_fields-size fs d st)
push_children-size null d st = omega arith
push_children-size (bool b) d st = omega arith
push_children-size (num n) d st = omega arith
push_children-size (str s) d st = omega arith

push_items-deep :
    (m : ℕ) (xs : Items) (d : ℕ) (st : Stack)
    → ltb m d ≡ false
    → deep m (push_items xs (d + 1) st) ≡ (ltb m (d + depth_items xs) || deep m st)
unfolding push_items depth
push_items-deep m nil d st h = ground arith
push_items-deep m (cons x xs) d st h = ground (arith, push_items-deep m xs d ((x, d + 1) ∷ st) h)

push_fields-deep :
    (m : ℕ) (fs : Fields) (d : ℕ) (st : Stack)
    → ltb m d ≡ false
    → deep m (push_fields fs (d + 1) st) ≡ (ltb m (d + depth_fields fs) || deep m st)
unfolding push_fields depth
push_fields-deep m end d st h = ground arith
push_fields-deep m (field k v fs) d st h =
    ground (arith, push_fields-deep m fs d ((v, d + 1) ∷ st) h)

push_children-deep :
    (m : ℕ) (v : Json) (d : ℕ) (st : Stack)
    → ltb m d ≡ false
    → deep m (push_children v (d + 1) st) ≡ (ltb m (d + depth v) || deep m st)
unfolding push_children depth
push_children-deep m (arr xs) d st h = push_items-deep m xs d st h
push_children-deep m (obj fs) d st h = push_fields-deep m fs d st h
push_children-deep m null d st h = ground arith
push_children-deep m (bool b) d st h = ground arith
push_children-deep m (num n) d st h = ground arith
push_children-deep m (str s) d st h = ground arith

depth_loop-deep :
    (fuel m : ℕ) (st : Stack) → size st < fuel → depth_loop fuel m st ≡ some (deep m st)
unfolding depth_loop
depth_loop-deep zero m st h = absurd (omega arith)
depth_loop-deep (suc fuel) m [] h = refl
depth_loop-deep (suc fuel) m ((v, d) ∷ st) h = elim (Bool-cases (ltb m d)) [
  | inl over ↦ ground arith
  | inr within ↦ ground (
    arith,
    depth_loop-deep fuel m (push_children v (d + 1) st)
        (omega (arith, push_children-size v (d + 1) st)),
    push_children-deep m v d st within,
  )
]

-- The stack walk ends, and answers whether the value's depth passes the limit.
pub exceeds_max_depth_iff : (v : Json) (m : ℕ) → exceeds_max_depth v m ≡ some (ltb m (depth v))
unfolding exceeds_max_depth
exceeds_max_depth_iff v m =
    ground (arith, depth_loop-deep (suc (nodes v)) m ((v, 0) ∷ []) (omega arith))

-- ===== src/Json/Depth.antt =====
-- A part of a value is less deep than the value.
use becloudless.Prelude.{String, ◌≡◌, ◌≤◌, some, inl, inr, arith, ap}
use becloudless.Json.{
  Value, Fields, field, end, Items, nil, cons, get, depth, depth_fields, depth_items, IsItem,
}

pub get-depth-le :
    (k : String) (m : Fields) (v : Value) → get k m ≡ some v → depth v ≤ depth_fields m
unfolding get depth
get-depth-le k end v h = ground arith
get-depth-le k (field j w m) v h = ground (arith, get-depth-le k m v)

pub IsItem-depth-le : (v : Value) (l : Items) → IsItem v l → depth v ≤ depth_items l
unfolding depth
IsItem-depth-le v nil h = absurd h
IsItem-depth-le v (cons w l) (inl e) = omega (arith, ap depth e)
IsItem-depth-le v (cons w l) (inr h) = omega (arith, IsItem-depth-le v l h)

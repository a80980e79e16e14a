-- ===== src/Sing/Legacy/Lookups.antt =====
-- The fields of an object as a map.
use v2bx_outbound.Base.{
  String, ◌==◌, eq_iff, eq_refl, Option, none, some, ◌≡◌, refl, arith, if◌then◌else◌,
}
use v2bx_outbound.Sing.Legacy.{
  Value, Items, Fields, null, bool, number, string, array, object, end, field, get, put, remove,
  as_object, as_array,
}

pub get-put :
    (k j : String) (v : Value) (f : Fields)
    → get j (put k v f) ≡ (if k == j then some v else get j f)
unfolding get put
get-put k j v end = refl
get-put k j v (field i w f) =
    ground (arith, eq_iff k j, eq_iff i k, eq_iff i j, eq_iff k i, get-put k j v f)

pub get-remove :
    (k j : String) (f : Fields) → get j (remove k f) ≡ (if k == j then none else get j f)
unfolding get remove
get-remove k j end = ground arith
get-remove k j (field i w f) =
    ground (arith, eq_iff k j, eq_iff i k, eq_iff i j, eq_iff k i, get-remove k j f)

-- To assign what is there changes nothing.
pub put-get : (k : String) (v : Value) (f : Fields) → get k f ≡ some v → put k v f ≡ f
unfolding get put
put-get k v end h = ground (arith, h)
put-get k v (field i w f) h = ground (arith, h, put-get k v f)

pub as_object-some : (o : Option Value) (f : Fields) → as_object o ≡ some f → o ≡ some (object f)
unfolding as_object
as_object-some none f h = ground (arith, h)
as_object-some (some null) f h = ground (arith, h)
as_object-some (some (bool b)) f h = ground (arith, h)
as_object-some (some (number b)) f h = ground (arith, h)
as_object-some (some (string b)) f h = ground (arith, h)
as_object-some (some (array b)) f h = ground (arith, h)
as_object-some (some (object b)) f h = ground (arith, h)

pub as_array-some : (o : Option Value) (l : Items) → as_array o ≡ some l → o ≡ some (array l)
unfolding as_array
as_array-some none l h = ground (arith, h)
as_array-some (some null) l h = ground (arith, h)
as_array-some (some (bool b)) l h = ground (arith, h)
as_array-some (some (number b)) l h = ground (arith, h)
as_array-some (some (string b)) l h = ground (arith, h)
as_array-some (some (array b)) l h = ground (arith, h)
as_array-some (some (object b)) l h = ground (arith, h)

-- A field that was assigned.
pub get-put_self : (k : String) (v : Value) (f : Fields) → get k (put k v f) ≡ some v
get-put_self k v f = ground (arith, get-put k k v f, eq_refl k)

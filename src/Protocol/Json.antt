-- ===== src/Protocol/Json.antt =====
-- The JavaScript values that the codecs of packages/protocol read and write.
use Prim.Native.String.{String}
use text.Mathlib.Text.{◌==◌ as str_eq}
use text.Mathlib.TextEquality.{eq_iff}
use arkade_taxi.Prelude.{
  ◌≡◌, refl, Bool, true, false, ◌&&◌, ◌||◌, Option, none, some, List, [], ◌∷◌, ◌++◌, Text,
  if◌then◌else◌, any, arith,
}
use arkade_taxi.Prelude.Int.{Number}

mutual
  pub data Json : Type 0 where
    undefined null : Json
    bool : Bool → Json
    num : Number → Json
    str : Text → Json
    arr : Items → Json
    obj : Fields → Json

  pub data Items : Type 0 where
    nil : Items
    cons : Json → Items → Items

  pub data Fields : Type 0 where
    end : Fields
    field : String → Json → Fields → Fields

-- `v !== null && typeof v === "object"`
abbrev pub is_object : Json → Bool
is_object (arr _) = true
is_object (obj _) = true
is_object _ = false

abbrev pub lookup : String → Fields → Json
lookup k end = undefined
lookup k (field j v fs) = if str_eq j k then v else lookup k fs

-- `v.k`: a property that is not there reads as `undefined`.
abbrev pub get : String → Json → Json
get k (obj fs) = lookup k fs
get k _ = undefined

-- `o.k = v`
abbrev pub put : String → Json → Fields → Fields
put k v end = field k v end
put k v (field j w fs) = if str_eq j k then field j v fs else field j w (put k v fs)

-- `if (v !== undefined) o.k = v`
abbrev pub put_opt : String → Option Json → Fields → Fields
put_opt k none fs = fs
put_opt k (some v) fs = put k v fs

abbrev pub has_key : String → Fields → Bool
has_key k end = false
has_key k (field j v fs) = str_eq j k || has_key k fs

abbrev pub only_keys : List String → Fields → Bool
only_keys allowed end = true
only_keys allowed (field j v fs) = any (λ k. str_eq k j) allowed && only_keys allowed fs

abbrev pub has_keys : List String → Fields → Bool
has_keys [] fs = true
has_keys (k ∷ ks) fs = has_key k fs && has_keys ks fs

-- Whether `exactKeys` passes with these keys required and those optional.
abbrev pub exact_keys_with : List String → List String → Json → Bool
exact_keys_with ks os (obj fs) = has_keys ks fs && only_keys (ks ++ os) fs
exact_keys_with ks os _ = false

-- Whether `exactKeys` passes with these keys required and none optional.
abbrev pub exact_keys : List String → Json → Bool
exact_keys ks (obj fs) = has_keys ks fs && only_keys ks fs
exact_keys ks _ = false

pub lookup-put :
    (k j : String) (v : Json) (fs : Fields)
    → lookup j (put k v fs) ≡ (if str_eq k j then v else lookup j fs)
lookup-put k j v end = refl
lookup-put k j v (field i w fs) =
    ground (arith, eq_iff k j, eq_iff i k, eq_iff i j, lookup-put k j v fs)

abbrev pub or_keep : Option Json → Json → Json
or_keep none old = old
or_keep (some v) old = v

pub lookup-put_opt :
    (k j : String) (o : Option Json) (fs : Fields)
    → lookup j (put_opt k o fs) ≡ (if str_eq k j then or_keep o (lookup j fs) else lookup j fs)
lookup-put_opt k j none fs = ground arith
lookup-put_opt k j (some v) fs = lookup-put k j v fs

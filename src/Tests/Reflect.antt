-- ===== src/Tests/Reflect.antt =====
-- Names of a field, a new cache, a struct with a tag and a field that is not exported, and numbers.
use hyperway.Prelude.{◌^◌, ◌↔◌, ◌≡◌, inl, inr, true, false, List, [], ◌∷◌, arith}
use hyperway.Prelude.Str.{str, lookup}
use hyperway.Reflect.{
  StructField, to_snake, to_camel, camel_to_snake, snake_to_camel, find_struct_field,
}
use hyperway.Prelude.Int.{pos, negsuc}
use hyperway.Reflect.Numbers.{int32_kind, signed, unsigned, stored, set_integer}
use hyperway.Reflect.Numbers.Exact.{Fits, set_integer-Fits}
use hyperway.Reflect.Names.{to_camel-to_snake}
use hyperway.Reflect.Memo.{IsSound, camel_to_snake-IsSound}
use hyperway.Reflect.Keys.{last_answering, find_struct_field-last_answering}

to_camel-to_snake_example : to_camel (to_snake (str "IdP2")) ≡ str "IdP2"
to_camel-to_snake_example =
    to_camel-to_snake b'I' (str "dP2") (omega arith, omega arith)
      (
        inr (inl (omega arith, omega arith)),
        (inl (omega arith, omega arith), (inr (inr (omega arith, omega arith)), tt)),
      )

nothing-IsSound : IsSound []
unfolding lookup
nothing-IsSound = record { snake = λ s v h. cc h; camel = λ s v h. cc h }

camel_to_snake-IsSound_example :
    let (snake, after_snake) = camel_to_snake (str "UserId") [] in
    let (camel, after_camel) = snake_to_camel (str "UserId") [] in
    ((snake ≡ to_snake (str "UserId")) × IsSound after_snake)
    × ((camel ≡ to_camel (str "UserId")) × IsSound after_camel)
camel_to_snake-IsSound_example = camel_to_snake-IsSound (str "UserId") [] nothing-IsSound

abbrev user : List StructField
user =
    record { name = str "UserId"; is_exported = true; json_tag = str "id,omitempty" }
    ∷ record { name = str "id"; is_exported = false; json_tag = [] }
    ∷ record { name = str "FullName"; is_exported = true; json_tag = [] }
    ∷ []

find_struct_field-last_answering_example :
    find_struct_field user (str "full_name") ≡ last_answering 0 (str "full_name") user
find_struct_field-last_answering_example = find_struct_field-last_answering user (str "full_name")

set_integer-Fits_example :
    ((set_integer pos (λ x. x) int32_kind (signed (negsuc 4)) ≡ stored (negsuc 4))
      ↔ Fits int32_kind (negsuc 4))
    × ((set_integer pos (λ x. x) int32_kind (unsigned (2 ^ 40)) ≡ stored (pos (2 ^ 40)))
        ↔ Fits int32_kind (pos (2 ^ 40)))
set_integer-Fits_example =
    set_integer-Fits pos (λ x. x) int32_kind (negsuc 4) (2 ^ 40) (omega arith) (omega arith)

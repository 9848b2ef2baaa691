-- ===== src/Reflect/Memo.antt =====
-- The cache of names.
use hyperway.Prelude.{◌≡◌, refl, sym, ap, ◌∙◌, Bool-cases, Option, none, some, inl, inr, ◌++◌}
use hyperway.Prelude.Str.{Str, str, str_eq, lookup, insert}
use hyperway.Prelude.Str.Laws.{str_eq_iff, lookup-insert}
use hyperway.Reflect.{NameCache, to_snake, to_camel, cached_or, camel_to_snake, snake_to_camel}

-- Every name in the cache is the one that is computed.
pub record IsSound (cache : NameCache) : Type 0 where
  pub snake : (s v : Str) → lookup (str "c2s:" ++ s) cache ≡ some v → v ≡ to_snake s
  pub camel : (s v : Str) → lookup (str "s2c:" ++ s) cache ≡ some v → v ≡ to_camel s

same_key :
    (f : Str → Str) (p s t v : Str) (cache : NameCache)
    → ((q r : Str) → p ++ q ≡ p ++ r → q ≡ r)
    → ((u w : Str) → lookup (p ++ u) cache ≡ some w → w ≡ f u)
    → lookup (p ++ t) (insert (p ++ s) (f s) cache) ≡ some v
    → v ≡ f t
same_key f p s t v cache cancel sound h =
    let looked = sym (lookup-insert (p ++ s) (p ++ t) (f s) cache) ∙ h in
    elim (Bool-cases (str_eq (p ++ s) (p ++ t))) [
      | inl same ↦
          let e = cancel s t ((str_eq_iff (p ++ s) (p ++ t)).0 same) in
          cc (rw same at looked, ap f e)
      | inr differs ↦ sound t v (rw differs at looked)
    ]

c2s_cancel : (q r : Str) → str "c2s:" ++ q ≡ str "c2s:" ++ r → q ≡ r
c2s_cancel q r h = cc h

s2c_cancel : (q r : Str) → str "s2c:" ++ q ≡ str "s2c:" ++ r → q ≡ r
s2c_cancel q r h = cc h

insert_snake-IsSound :
    (s : Str) (cache : NameCache)
    → IsSound cache
    → IsSound (insert (str "c2s:" ++ s) (to_snake s) cache)
unfolding str_eq
insert_snake-IsSound s cache sound = record {
  snake = λ t v h. same_key to_snake (str "c2s:") s t v cache c2s_cancel sound.snake h;
  camel = λ t v h.
      sound.camel t v
        (sym (lookup-insert (str "c2s:" ++ s) (str "s2c:" ++ t) (to_snake s) cache) ∙ h);
}

insert_camel-IsSound :
    (s : Str) (cache : NameCache)
    → IsSound cache
    → IsSound (insert (str "s2c:" ++ s) (to_camel s) cache)
unfolding str_eq
insert_camel-IsSound s cache sound = record {
  snake = λ t v h.
      sound.snake t v
        (sym (lookup-insert (str "s2c:" ++ s) (str "c2s:" ++ t) (to_camel s) cache) ∙ h);
  camel = λ t v h. same_key to_camel (str "s2c:") s t v cache s2c_cancel sound.camel h;
}

cached_or_lem :
    (key computed : Str) (cache : NameCache) (o : Option Str)
    → ((v : Str) → o ≡ some v → v ≡ computed)
    → IsSound cache
    → IsSound (insert key computed cache)
    → let (name, after) = cached_or key computed cache o in (name ≡ computed) × IsSound after
unfolding cached_or
cached_or_lem key computed cache none right sound inserted = (refl, inserted)
cached_or_lem key computed cache (some v) right sound inserted = (right v refl, sound)

-- With a cache whose names are right, both conversions give the name that they compute, and leave such a cache: the
-- entries of one conversion are never taken for those of the other.
pub camel_to_snake-IsSound :
    (s : Str) (cache : NameCache)
    → IsSound cache
    → let (snake, after_snake) = camel_to_snake s cache in
      let (camel, after_camel) = snake_to_camel s cache in
      ((snake ≡ to_snake s) × IsSound after_snake) × ((camel ≡ to_camel s) × IsSound after_camel)
unfolding camel_to_snake snake_to_camel
camel_to_snake-IsSound s cache sound = (
  cached_or_lem (str "c2s:" ++ s) (to_snake s) cache (lookup (str "c2s:" ++ s) cache)
      (sound.snake s) sound (insert_snake-IsSound s cache sound),
  cached_or_lem (str "s2c:" ++ s) (to_camel s) cache (lookup (str "s2c:" ++ s) cache)
      (sound.camel s) sound (insert_camel-IsSound s cache sound),
)

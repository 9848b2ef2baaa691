-- ===== src/Gateway/Routes/Lookup.antt =====
-- Which handler a path gets.
use hyperway.Prelude.{
  ◌≡◌, refl, sym, ap, ◌∙◌, Bool-cases, inl, inr, Option, none, some, List, [], ◌∷◌,
}
use hyperway.Prelude.Str.{Str, str_eq, lookup}
use hyperway.Prelude.Str.Laws.{lookup-insert}
use hyperway.Gateway.Routes.{
  HttpHandler, Handlers, add_handlers, build_handlers_map, by_prefix, found_or, find_handler,
}

-- the handler of the last service that has the path
abbrev pub latest : Str → List Handlers → Option HttpHandler
latest path [] = none
latest path (service ∷ more) = found_or (latest path more) (lookup path service)

found_or_assoc :
    (a b c : Option HttpHandler) → found_or (found_or a b) c ≡ found_or a (found_or b c)
unfolding found_or
found_or_assoc none b c = refl
found_or_assoc (some handler) b c = refl

lookup-add_handlers :
    (path : Str) (service handlers : Handlers)
    → lookup path (add_handlers service handlers)
      ≡ found_or (lookup path service) (lookup path handlers)
unfolding add_handlers found_or lookup
lookup-add_handlers path [] handlers = refl
lookup-add_handlers path ((p, handler) ∷ more) handlers =
    lookup-insert p path handler (add_handlers more handlers) ∙ elim (Bool-cases (str_eq p path)) [
      | inl same ↦ rw same refl
      | inr differs ↦ rw differs (lookup-add_handlers path more handlers)
    ]

lookup-build_handlers_map :
    (path : Str) (services : List Handlers) (handlers : Handlers)
    → lookup path (build_handlers_map services handlers)
      ≡ found_or (latest path services) (lookup path handlers)
unfolding build_handlers_map found_or
lookup-build_handlers_map path [] handlers = refl
lookup-build_handlers_map path (service ∷ more) handlers =
    lookup-build_handlers_map path more (add_handlers service handlers)
    ∙ ap (found_or (latest path more)) (lookup-add_handlers path service handlers)
    ∙ sym (found_or_assoc (latest path more) (lookup path service) (lookup path handlers))

-- The gateway of some services finds, for a path that they register, the handler of the last service that has it, and for
-- another path that of a registered prefix that ends in a slash, if there is one.
pub find_handler-build_handlers_map :
    (path : Str) (services : List Handlers)
    → let handlers = build_handlers_map services [] in
      find_handler handlers path ≡ found_or (latest path services) (by_prefix path handlers)
unfolding find_handler lookup found_or
find_handler-build_handlers_map path services =
    let handlers = build_handlers_map services [] in
    ap (λ o. found_or o (by_prefix path handlers)) (lookup-build_handlers_map path services [])
    ∙ found_or_assoc (latest path services) none (by_prefix path handlers)

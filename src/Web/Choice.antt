-- ===== src/Web/Choice.antt =====
-- Which handler of the fixed routes (src/main.cpp, src/ApiServer.cpp) a request is given to.
use mathlib.Core.Path.{subst}
use mathlib.Core.Bool.{false≢true}
use esp32_sequencer.Base.{
  String, ◌≡◌, refl, sym, ap, ◌∙◌, ◌⊎◌, inl, inr, Bool, true, false, ◌&&◌, ◌||◌, not, some, List,
  [], ◌∷◌, ◌++◌, Bool-cases,
}
use esp32_sequencer.Web.{
  Method, Handler, Route, Request, fixed_routes, binding_routes, routes, Server, first_accepting,
  covers, no_wildcard, IsServer,
}

abbrev pub same_method : Method → Method → Bool
same_method Method.http_get Method.http_get = true
same_method Method.http_post Method.http_post = true
same_method Method.http_put Method.http_put = true
same_method Method.http_delete Method.http_delete = true
same_method m n = false

pub same_method_refl : (m : Method) → same_method m m ≡ true
same_method_refl Method.http_get = refl
same_method_refl Method.http_post = refl
same_method_refl Method.http_put = refl
same_method_refl Method.http_delete = refl

abbrev pub is_run_json : Handler → Bool
is_run_json Handler.run_json = true
is_run_json h = false

abbrev pub In : Route → List Route → Type 0
In x [] = ⊥
In x (y ∷ ys) = (x ≡ y) ⊎ In x ys

-- A request of the route's method, path and kind of content.
abbrev pub IsFor : Route → Request → Type 0
IsFor x req =
    (req.method ≡ x.method) × (req.path ≡ x.path) × (x.is_json ≡ true → req.has_json ≡ true)

-- The route `y` does not take the requests for `x`.
abbrev clear_of : Route → Route → Bool
clear_of y x = no_wildcard y.path && not (same_method x.method y.method && covers y.path x.path)

-- It takes those for none of the routes, but perhaps for that of a run with arguments.
abbrev clear_of_all : Route → List Route → Bool
clear_of_all y [] = true
clear_of_all y (x ∷ xs) = (is_run_json x.handler || clear_of y x) && clear_of_all y xs

abbrev all_clear : List Route → Bool
all_clear [] = true
all_clear (y ∷ ys) = clear_of_all y ys && all_clear ys

fixed_routes_clear : all_clear fixed_routes ≡ true
fixed_routes_clear = refl

and-left : (a b : Bool) → (a && b) ≡ true → a ≡ true
and-left true b h = refl
and-left false b h = h

and-right : (a b : Bool) → (a && b) ≡ true → b ≡ true
and-right true b h = h
and-right false b h = absurd (false≢true h)

module _ (server : Server) (lawful : IsServer server) where
  clear_of-accepts :
      (x y : Route) (req : Request)
      → IsFor x req
      → clear_of y x ≡ true
      → server.accepts y req ≡ false
  clear_of-accepts x y req h clear = elim (Bool-cases (server.accepts y req)) [
    | inr e ↦ e
    | inl e ↦
        let method = sym h.0 ∙ lawful.own_method y req e in
        let same = ap (λ m. same_method m y.method) method ∙ same_method_refl y.method in
        let path = lawful.own_path y req (and-left (no_wildcard y.path) _ clear) e in
        absurd (
          false≢true (
            sym (
              ap (λ b. not (b && covers y.path x.path)) same
              ∙ ap (λ p. not (covers y.path p)) (sym h.1)
              ∙ ap not path)
            ∙ and-right (no_wildcard y.path) _ clear))
  ]

  clear_of_all-In :
      (x y : Route) (ys : List Route)
      → In x ys
      → is_run_json x.handler ≡ false
      → clear_of_all y ys ≡ true
      → clear_of y x ≡ true
  clear_of_all-In x y [] i other clear = absurd i
  clear_of_all-In x y (z ∷ zs) (inl e) other clear =
      subst (λ r. is_run_json r.handler ≡ false → clear_of y r ≡ true) (sym e)
        (λ o. ap (λ b. b || clear_of y z) (sym o) ∙ and-left _ (clear_of_all y zs) clear) other
  clear_of_all-In x y (z ∷ zs) (inr i) other clear =
      clear_of_all-In x y zs i other (and-right _ (clear_of_all y zs) clear)

  first_accepting-In :
      (x : Route) (rs rest : List Route) (req : Request)
      → In x rs
      → is_run_json x.handler ≡ false
      → IsFor x req
      → all_clear rs ≡ true
      → first_accepting server.accepts (rs ++ rest) req ≡ some x
  unfolding first_accepting
  first_accepting-In x [] rest req i other h clear = absurd i
  first_accepting-In x (y ∷ ys) rest req (inl e) other h clear =
      let taken = ap (λ r. server.accepts r req) (sym e) ∙ lawful.takes x req h.0 h.1 h.2 in
      rw taken (ap some (sym e))
  first_accepting-In x (y ∷ ys) rest req (inr i) other h clear =
      let passed =
        clear_of-accepts x y req h
          (clear_of_all-In x y ys i other (and-left _ (all_clear ys) clear)) in
      rw passed (first_accepting-In x ys rest req i other h (and-right _ (all_clear ys) clear))

  pub select-fixed_routes :
      (x : Route) (handlers : List (String × String)) (req : Request)
      → In x fixed_routes
      → is_run_json x.handler ≡ false
      → IsFor x req
      → server.select (routes handlers) req ≡ some x
  select-fixed_routes x handlers req i other h =
      lawful.in_order (routes handlers) req
      ∙ first_accepting-In x fixed_routes (binding_routes handlers) req i other h fixed_routes_clear

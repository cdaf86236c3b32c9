-- ===== src/Serve/Order.antt =====
-- What has been judged before a call reaches the chain (ServeHTTP of internal/serve/serve.go).
use garmd.Base.{
  ◌≡◌, ◌≢◌, refl, ◌∙◌, String, true, Option, none, some, List, [], ◌∷◌, arith, str_eq, eq_iff,
  Bool-cases, inl, inr,
}
use garmd.ToolDef.{Def}
use garmd.Serve.{error, refuse}
use garmd.Serve.Handler.{
  Generation, Request, Caller, unidentified, nobody, caller, Decoded, mismatch, decoded, Surface,
  list_tools_path, lookup_route, call, read_body, unless_quarantined, route, identified,
  with_generation, serve_http,
}

lookup_route-full_method :
    (defs : List Def) (path : String) (def : Def)
    → lookup_route defs path ≡ some def
    → def.full_method ≡ path
unfolding lookup_route
lookup_route-full_method [] path def h = absurd (ground arith)
lookup_route-full_method (d ∷ defs) path def h =
    ground (arith, eq_iff d.full_method path, lookup_route-full_method defs path def)

abbrev pub IsUnidentified : {P : Type 0} → Option (Caller P) → Type 0
IsUnidentified {P = P} w = (p : P) → w ≢ some (caller p)

module _ {V P B Q M : Type 0} (h : Surface V P B Q M) (r : Request B) where
  -- The call, its caller and its request, as this surface may hand them to the chain.
  pub record IsJudged (g : Generation) (p : P) (method : String) (q : Q) : Type 0 where
    pub current : h.current ≡ some g
    pub governed : h.is_governed g ≡ true
    pub identity : h.principals ≡ some (caller p)
    pub served :
        (def : Def) × (lookup_route g.defs method ≡ some def)
        × (h.quarantined def.fqn ≡ none)
        × ((b : B) × (r.body ≡ some b) × (h.unmarshal def.input r.as_json b ≡ decoded q))
    pub addressed : method ≡ r.path

  module _ (g : Generation) (p : P) where
    Called : Def → P × String × Q → Type 0
    Called def (u, method, q) =
        (u ≡ p)
        × (method ≡ def.full_method)
        × ((b : B) × (r.body ≡ some b) × (h.unmarshal def.input r.as_json b ≡ decoded q))

    call-Called :
        (def : Def) (b : B) (d : Decoded Q) (c : P × String × Q)
        → r.body ≡ some b
        → h.unmarshal def.input r.as_json b ≡ d
        → (call h g r p def d).invoked ≡ some c
        → Called def c
    unfolding call Called
    call-Called def b (mismatch why) c e k i = absurd (ground arith)
    call-Called def b (decoded q) (u, m, q') e k i =
        (ground arith, ground arith, (b, e, ground (arith, k)))

    read_body-Called :
        (def : Def) (o : Option B) (c : P × String × Q)
        → r.body ≡ o
        → (read_body h g r p def o).invoked ≡ some c
        → Called def c
    unfolding read_body
    read_body-Called def none c e i = absurd (ground arith)
    read_body-Called def (some b) c e i =
        call-Called def b (h.unmarshal def.input r.as_json b) c e refl i

    unless_quarantined-Called :
        (def : Def) (o : Option String) (c : P × String × Q)
        → (unless_quarantined h g r p def o).invoked ≡ some c
        → (o ≡ none) × Called def c
    unfolding unless_quarantined
    unless_quarantined-Called def none c i = (refl, read_body-Called def r.body c refl i)
    unless_quarantined-Called def (some why) c i = absurd (ground arith)

    route-Called :
        (o : Option Def) (c : P × String × Q)
        → (route h g r p o).invoked ≡ some c
        → (def : Def) × (o ≡ some def) × (h.quarantined def.fqn ≡ none) × Called def c
    unfolding route
    route-Called none c i = absurd (ground arith)
    route-Called (some def) c i =
        let (free, called) = unless_quarantined-Called def (h.quarantined def.fqn) c i in
        (def, refl, free, called)

    -- What a route that was followed to a call gives.
    routed-IsJudged :
        (u : P) (method : String) (q : Q) (def : Def)
        → h.current ≡ some g
        → h.is_governed g ≡ true
        → h.principals ≡ some (caller p)
        → lookup_route g.defs r.path ≡ some def
        → h.quarantined def.fqn ≡ none
        → Called def (u, method, q)
        → IsJudged g u method q
    unfolding Called
    routed-IsJudged u method q def cur gov who found free (same, meth, request) =
        let here : method ≡ r.path = meth ∙ lookup_route-full_method g.defs r.path def found in
        record {
          current = cur;
          governed = gov;
          identity = rw same who;
          served = (def, rw here found, free, request);
          addressed = here;
        }

  identified-IsJudged :
      (g : Generation) (w : Option (Caller P)) (p : P) (method : String) (q : Q)
      → h.current ≡ some g
      → h.is_governed g ≡ true
      → h.principals ≡ w
      → (identified h g r w).invoked ≡ some (p, method, q)
      → IsJudged g p method q
  unfolding identified
  identified-IsJudged g none p method q cur gov who i = absurd (ground arith)
  identified-IsJudged g (some unidentified) p method q cur gov who i = absurd (ground arith)
  identified-IsJudged g (some nobody) p method q cur gov who i = absurd (ground arith)
  identified-IsJudged g (some (caller u)) p method q cur gov who i =
      elim (Bool-cases (str_eq r.path list_tools_path)) [
        | inl listing ↦ absurd (ground arith)
        | inr other ↦
            let went : (route h g r u (lookup_route g.defs r.path)).invoked ≡ some (p, method, q) =
              ground arith in
            let (def, found, free, called) =
              route-Called g u (lookup_route g.defs r.path) (p, method, q) went in
            routed-IsJudged g u p method q def cur gov who found free called
      ]

  with_generation-IsJudged :
      (o : Option Generation) (p : P) (method : String) (q : Q)
      → h.current ≡ o
      → (with_generation h r o).invoked ≡ some (p, method, q)
      → (g : Generation) × IsJudged g p method q
  unfolding with_generation
  with_generation-IsJudged none p method q cur i = absurd (ground arith)
  with_generation-IsJudged (some g) p method q cur i = elim (Bool-cases (h.is_governed g)) [
    | inl gov ↦ (g, identified-IsJudged g h.principals p method q cur gov refl (ground arith))
    | inr bad ↦ absurd (ground arith)
  ]

  -- A call reaches the chain only in a POST, under the generation that is current and governed, for
  -- the caller that the source identified, to the tool of that generation whose full method is the
  -- path, while its service is not quarantined, and with the request that its input type decodes.
  pub serve_http-IsJudged :
      (p : P) (method : String) (q : Q)
      → (serve_http h r).invoked ≡ some (p, method, q)
      → (r.is_post ≡ true) × ((g : Generation) × IsJudged g p method q)
  unfolding serve_http
  serve_http-IsJudged p method q i = elim (Bool-cases r.is_post) [
    | inl post ↦ (post, with_generation-IsJudged h.current p method q refl (ground arith))
    | inr other ↦ absurd (ground arith)
  ]

  turned_away_identified :
      (g : Generation) (w : Option (Caller P))
      → IsUnidentified w
      → (identified h g r w).answer ≡ error 401 "unauthenticated" "unauthenticated"
  unfolding identified refuse
  turned_away_identified g none no_one = refl
  turned_away_identified g (some unidentified) no_one = refl
  turned_away_identified g (some nobody) no_one = refl
  turned_away_identified g (some (caller p)) no_one = absurd (no_one p refl)

  -- Whoever posts without being identified, under a generation that is governed, gets one answer, the
  -- same for every path and every catalogue, the listing's path included.
  pub serve_http-tells_nothing :
      (g : Generation)
      → r.is_post ≡ true
      → h.current ≡ some g
      → h.is_governed g ≡ true
      → IsUnidentified h.principals
      → (serve_http h r).answer ≡ error 401 "unauthenticated" "unauthenticated"
  unfolding serve_http with_generation
  serve_http-tells_nothing g post cur gov no_one =
      rw post (rw cur (rw gov (turned_away_identified g h.principals no_one)))

-- ===== src/Tenancy/Requests.antt =====
-- A whole request: `RealmAndSpaceMiddleware.__call__` of workflow/middleware.py, around the rest of the
-- application, `get_response`. Python's `replace` and the test whether "/admin/" is in the path are
-- parameters.
use finmars_workflow.Common.{
  String, ◌≡◌, refl, Bool, not, ◌&&◌, Option, none, some, List, ◌∷◌, if◌then◌else◌, Bool-cases, inl,
  inr, ap, sym,
}
use finmars_workflow.Common.Exec.{Exec, Result, ok, err, pure, modify, after, ◌>>=◌, ◌>>◌}
use finmars_workflow.Models.{Store}
use finmars_workflow.Tenancy.{
  RequestSpace, realm_and_space, set_search_path, has_realm, schema_exists,
}

pub record Page : Type 0 where
  pub streaming : Bool
  pub content : String
  pub location : Option String

module _ (replace : String → String → String → String)
    (get_response : RequestSpace → Exec Store Page) where
  abbrev pub replaced_location : String → Option String → Option String
  replaced_location code none = none
  replaced_location code (some l) = some (replace l "spacexxxxx" code)

  abbrev pub rewritten : Bool → String → Page → Page
  rewritten in_admin code p =
      if not p.streaming && in_admin
      then record p {
        content = replace p.content "spacexxxxx" code;
        location = replaced_location code p.location;
      }
      else p

  unfoldable pub handle_request : List String → Bool → Exec Store Page
  handle_request parts in_admin = do
    request ← realm_and_space parts
    page ← get_response request
    modify (set_search_path "public")
    pure (rewritten in_admin request.space_code page)

  public_after :
      (r : Result Page × Store) (in_admin : Bool) (code : String) (page : Page) (s' : Store)
      → after (λ p. modify (set_search_path "public") >> pure (rewritten in_admin code p)) r
        ≡ (ok page, s')
      → s'.search_path ≡ "public"
  public_after (ok p, t) in_admin code page s' h = ap (λ q. q.1.search_path) (sym h)
  public_after (err e, t) in_admin code page s' h = cc

  same_view :
      (x realm space : String) (rest : List String) (s : Store) (path : String)
      → realm_and_space (x ∷ realm ∷ space ∷ rest) (set_search_path path s)
        ≡ realm_and_space (x ∷ realm ∷ space ∷ rest) s
  unfolding realm_and_space schema_exists
  same_view x realm space rest s path = elim (Bool-cases (has_realm realm)) [
    | inl e ↦ rw e refl
    | inr e ↦ rw e refl
  ]

  -- A request of a realm and a space is answered in the same way, and leaves the same store, whichever
  -- schema the connection had selected before; and after an answer the public schema is selected.
  pub handle_request_isolated :
      (x realm space : String) (rest : List String) (in_admin : Bool) (path : String) (s s' : Store)
      (page : Page)
      → handle_request (x ∷ realm ∷ space ∷ rest) in_admin s ≡ (ok page, s')
      → (handle_request (x ∷ realm ∷ space ∷ rest) in_admin (set_search_path path s)
          ≡ (ok page, s'))
        × (s'.search_path ≡ "public")
  unfolding handle_request
  handle_request_isolated x realm space rest in_admin path s s' page h = (
    rw (same_view x realm space rest s path) h,
    go (realm_and_space (x ∷ realm ∷ space ∷ rest) s) h,
  )
    where
      go :
          (q : Result RequestSpace × Store)
          → after
              (λ request. get_response request >>= (λ p.
                modify (set_search_path "public")
                >> pure (rewritten in_admin request.space_code p)))
              q
            ≡ (ok page, s')
          → s'.search_path ≡ "public"
      go (ok request, t) k =
          public_after (get_response request t) in_admin request.space_code page s' k
      go (err e, t) k = cc

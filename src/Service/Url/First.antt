-- ===== src/Service/Url/First.antt =====
-- Which address of a provider the URL of a resource comes from.
use indexing_service.Prelude.{
  ◌≡◌, ◌∙◌, refl, sym, ap, Bool, true, false, List, [], ◌∷◌, ◌++◌, Bytes, All,
}
use indexing_service.Result.{Result, ok, err, Err, ok-injective}
use indexing_service.ProviderResults.{AddrInfo}
use indexing_service.Service.Url.{Url, has_place, replace_all, find_url, url_for_resource}

module _ (to_url : Bytes → Result Url) (resource_type resource_id : Bytes) where
  -- An address that gives no HTTP URL with a place for the resource.
  abbrev pub Unusable : Bytes → Type 0
  Unusable addr = (u : Url) → to_url addr ≡ ok u → has_place u resource_type ≡ false

  -- The URL comes from the first address that is usable, with every place in its path replaced.
  pub record FromFirst (addrs : List Bytes) (url : Url) : Type 0 where
    pub before : List Bytes
    pub addr : Bytes
    pub later : List Bytes
    pub u : Url
    pub split : addrs ≡ before ++ addr ∷ later
    pub skipped : All Unusable before
    pub converted : to_url addr ≡ ok u
    pub usable : has_place u resource_type ≡ true
    pub replaced : url ≡ record u { path = replace_all u.path resource_type resource_id }

  skip :
      (addr : Bytes) (addrs : List Bytes) (url : Url)
      → Unusable addr
      → FromFirst addrs url
      → FromFirst (addr ∷ addrs) url
  skip addr addrs url h f = record {
    before = addr ∷ f.before;
    addr = f.addr;
    later = f.later;
    u = f.u;
    split = ap (λ xs. addr ∷ xs) f.split;
    skipped = (h, f.skipped);
    converted = f.converted;
    usable = f.usable;
    replaced = f.replaced;
  }

  no_url : (addr : Bytes) (e : Err) → to_url addr ≡ err e → Unusable addr
  no_url addr e h u f = cc

  no_place :
      (addr : Bytes) (u : Url)
      → to_url addr ≡ ok u
      → has_place u resource_type ≡ false
      → Unusable addr
  no_place addr u h p v f =
      let same : u ≡ v = cc in ap (λ x. has_place x resource_type) (sym same) ∙ p

  find_url-FromFirst :
      (addrs : List Bytes) (url : Url)
      → find_url to_url addrs resource_type resource_id ≡ ok url
      → FromFirst addrs url
  unfolding find_url
  find_url-FromFirst [] url e = cc
  find_url-FromFirst (addr ∷ addrs) url e =
      by_url (to_url addr) (λ f. find_url-FromFirst addrs url f) refl e
    where
      by_place :
          (u : Url) (b : Bool)
          → (find_url to_url addrs resource_type resource_id ≡ ok url → FromFirst addrs url)
          → to_url addr ≡ ok u
          → has_place u resource_type ≡ b
          → elim b [
            | true ↦ ok (record u { path = replace_all u.path resource_type resource_id })
            | false ↦ find_url to_url addrs resource_type resource_id
          ]
            ≡ ok url
          → FromFirst (addr ∷ addrs) url
      by_place u true rest c p f = record {
        before = [];
        addr = addr;
        later = addrs;
        u = u;
        split = refl;
        skipped = tt;
        converted = c;
        usable = p;
        replaced = sym (ok-injective f);
      }
      by_place u false rest c p f = skip addr addrs url (no_place addr u c p) (rest f)

      by_url :
          (r : Result Url)
          → (find_url to_url addrs resource_type resource_id ≡ ok url → FromFirst addrs url)
          → to_url addr ≡ r
          → elim r [
            | err x ↦ find_url to_url addrs resource_type resource_id
            | ok u ↦ elim (has_place u resource_type) [
              | true ↦ ok (record u { path = replace_all u.path resource_type resource_id })
              | false ↦ find_url to_url addrs resource_type resource_id
            ]
          ]
            ≡ ok url
          → FromFirst (addr ∷ addrs) url
      by_url (err x) rest c f = skip addr addrs url (no_url addr x c) (rest f)
      by_url (ok u) rest c f = by_place u (has_place u resource_type) rest c refl f

  -- A URL for a resource comes from the first address of the provider that converts to an HTTP URL
  -- with a place for the resource in its path; every such place is replaced, and the rest is kept.
  pub url_for_resource-FromFirst :
      (provider : AddrInfo) (url : Url)
      → url_for_resource to_url provider resource_type resource_id ≡ ok url
      → FromFirst provider.addrs url
  unfolding url_for_resource
  url_for_resource-FromFirst provider url e = find_url-FromFirst provider.addrs url e

-- ===== src/Samples/Records.antt =====
-- A codec of provider records, which needs a provider in each.
use indexing_service.Prelude.{
  ℕ, zero, suc, ◌≡◌, refl, sym, ap, true, Option, none, some, List, [], ◌∷◌, Bytes, length, All,
  map,
}
use mathlib.Core.Path.{subst}
use indexing_service.Result.{Result, ok, err, foreign, on_ok, ok-injective, on_ok_lem}
use indexing_service.ProviderResults.{AddrInfo, ProviderResult}
use indexing_service.Redis.Laws.{encodes, storable_text}
use indexing_service.ProviderResults.Codec.{ProviderNode, ProviderResultNode, Libraries}
use indexing_service.Samples.Numbers.{
  put_string, get_string, put_strings, get_strings, take_put, get_put,
}

-- A record that the codec can hold: one with a provider.
abbrev Present : Option AddrInfo → Type 0
Present none = ⊥
Present (some a) = Unit {0}

abbrev put_record : ProviderResult → Option AddrInfo → Result (List ℕ) → Result (List ℕ)
put_record r none rest = err (foreign 8)
put_record r (some a) rest = on_ok rest (λ text. ok (
    put_string r.context_id
      (put_string r.metadata (put_string a.id (length a.addrs ∷ put_strings a.addrs text)))))

abbrev put_records : List ProviderResult → Result (List ℕ)
put_records [] = ok []
put_records (r ∷ rs) = put_record r r.provider (put_records rs)

abbrev record_with :
    Bytes
    → Bytes
    → Bytes
    → List ℕ
    → (List ℕ → Result (List ProviderResult))
    → Result (List ProviderResult)
record_with c m i [] rest = err (foreign 9)
record_with c m i (n ∷ text) rest =
    let (addrs, more) = get_strings n text in
    on_ok (rest more) (λ rs. ok (
      record { context_id = c; metadata = m; provider = some (record { id = i; addrs = addrs }) }
      ∷ rs))

abbrev get_records : ℕ → List ℕ → Result (List ProviderResult)
get_records zero text = ok []
get_records (suc n) text =
    let (c, t) = get_string text in
    let (m, t') = get_string t in
    let (i, t'') = get_string t' in record_with c m i t'' (get_records n)

abbrev pub marshal : List ProviderResult → Result Bytes
marshal rs = on_ok (put_records rs) (λ text. ok (length rs ∷ text))

abbrev pub unmarshal : Bytes → Result (List ProviderResult)
unmarshal [] = err (foreign 10)
unmarshal (n ∷ text) = get_records n text

get_put_records :
    (rs : List ProviderResult) (text : List ℕ)
    → put_records rs ≡ ok text
    → get_records (length rs) text ≡ ok rs
get_put_records [] text e = refl
get_put_records (r ∷ rs) text e = of_provider (get_put_records rs) r.provider refl e
  where
    of_provider :
        ((rest : List ℕ) → put_records rs ≡ ok rest → get_records (length rs) rest ≡ ok rs)
        → (o : Option AddrInfo) → r.provider ≡ o
        → put_record r o (put_records rs) ≡ ok text
        → get_records (suc (length rs)) text ≡ ok (r ∷ rs)
    of_provider ih none p f = cc
    of_provider ih (some a) p f =
        let (rest, g, h) = on_ok_lem (put_records rs) _ text f in
        subst (λ t. get_records (suc (length rs)) t ≡ ok (r ∷ rs)) (ok-injective h)
          (rw
            (take_put r.context_id
              (put_string r.metadata (put_string a.id (length a.addrs ∷ put_strings a.addrs rest))))
            (rw (take_put r.metadata (put_string a.id (length a.addrs ∷ put_strings a.addrs rest)))
              (rw (take_put a.id (length a.addrs ∷ put_strings a.addrs rest)) (
                rw (get_put a.addrs rest) (
                  rw (ih rest g) (
                    ap
                      (λ o. ok (
                        record { context_id = r.context_id; metadata = r.metadata; provider = o }
                        ∷ rs))
                      (sym p)))))))

pub unmarshal-marshal :
    (rs : List ProviderResult) (text : Bytes) → marshal rs ≡ ok text → unmarshal text ≡ ok rs
unmarshal-marshal rs text e =
    let (body, g, h) = on_ok_lem (put_records rs) _ text e in
    subst (λ t. unmarshal t ≡ ok rs) (ok-injective h) (get_put_records rs body g)

put_records_ok :
    (rs : List ProviderResult) → All (λ r. Present r.provider) rs → encodes (put_records rs) ≡ true
put_records_ok [] h = refl
put_records_ok (r ∷ rs) h = of_provider r.provider (h.0) (put_records rs) (put_records_ok rs h.1)
  where
    of_provider :
        (o : Option AddrInfo)
        → Present o
        → (x : Result (List ℕ)) → encodes x ≡ true
        → encodes (put_record r o x) ≡ true
    of_provider none has x e = absurd has
    of_provider (some a) has (ok text) e = refl
    of_provider (some a) has (err x) e = cc

pub encodes-marshal :
    (rs : List ProviderResult) → All (λ r. Present r.provider) rs → encodes (marshal rs) ≡ true
encodes-marshal rs h = of_text (put_records rs) (put_records_ok rs h)
  where
    of_text :
        (x : Result (List ℕ))
        → encodes x ≡ true
        → encodes (on_ok x (λ text. ok (length rs ∷ text))) ≡ true
    of_text (ok text) e = refl
    of_text (err x) e = cc

-- The libraries of a codec that writes these texts.
abbrev as_record : ProviderResultNode → ProviderResult
as_record n = record {
  context_id = n.context_id;
  metadata = n.metadata;
  provider = some (record { id = n.provider.id; addrs = n.provider.addrs });
}

abbrev address_of : Option AddrInfo → ProviderNode
address_of none = record { id = []; addrs = [] }
address_of (some a) = record { id = a.id; addrs = a.addrs }

abbrev as_node : ProviderResult → ProviderResultNode
as_node r = record {
  context_id = r.context_id;
  metadata = r.metadata;
  provider = address_of r.provider;
}

abbrev pub lib : Libraries (Unit {0}) (Unit {0})
lib = record {
  load_schema = λ text. ok tt;
  type_by_name = λ ts name. tt;
  encode = λ t ns. marshal (map as_record ns);
  decode = λ t text. on_ok (unmarshal text) (λ rs. ok (map as_node rs));
  id_from_bytes = λ id. ok id;
  new_multiaddr_bytes = λ a. ok a;
  multiaddr_bytes = λ a. a;
  no_value = foreign 1;
}

as_node-as_record : (ns : List ProviderResultNode) → map as_node (map as_record ns) ≡ ns
as_node-as_record [] = refl
as_node-as_record (n ∷ ns) = ap (λ xs. n ∷ xs) (as_node-as_record ns)

pub reads :
    (ns : List ProviderResultNode) (text : Bytes)
    → lib.encode tt ns ≡ ok text
    → lib.decode tt text ≡ ok ns
reads ns text e = rw (unmarshal-marshal (map as_record ns) text e) (ap ok (as_node-as_record ns))

pub addresses_read :
    (xs : List Bytes) → All (λ a. lib.new_multiaddr_bytes (lib.multiaddr_bytes a) ≡ ok a) xs
addresses_read [] = tt
addresses_read (x ∷ xs) = (refl, addresses_read xs)

records-Present : (ns : List ProviderResultNode) → All (λ r. Present r.provider) (map as_record ns)
records-Present [] = tt
records-Present (n ∷ ns) = (tt, records-Present ns)

pub writes : (ns : List ProviderResultNode) → (text : Bytes) × (lib.encode tt ns ≡ ok text)
writes ns =
    storable_text (map as_record ns) marshal
      (encodes-marshal (map as_record ns) (records-Present ns))

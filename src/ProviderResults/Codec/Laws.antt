-- ===== src/ProviderResults/Codec/Laws.antt =====
-- Records are read as they were written.
use mathlib.Core.Path.{subst}
use indexing_service.Prelude.{
  ◌≡◌, refl, sym, ap, Option, none, some, List, [], ◌∷◌, map, Bytes, All, All-mono,
}
use indexing_service.Result.{ok, err, traverse, on_ok_lem, ok-injective, traverse-map}
use indexing_service.ProviderResults.{AddrInfo, ProviderResult}
use indexing_service.ProviderResults.Codec.{
  ProviderResultNode, Libraries, bytes_to_peer_id, peer_id_to_bytes, bytes_to_multiaddr,
  multiaddr_to_bytes, read_node, write_node, unmarshal_cbor, marshal_cbor,
}

module _ {TypeSystem SchemaType : Type 0} (lib : Libraries TypeSystem SchemaType) where
  -- A peer id and multiaddrs that are read from their own bytes.
  pub record IsReadable (p : AddrInfo) : Type 0 where
    pub id_lem : lib.id_from_bytes p.id ≡ ok p.id
    pub addrs_lem : All (λ a. lib.new_multiaddr_bytes (lib.multiaddr_bytes a) ≡ ok a) p.addrs

  abbrev pub ReadableRecord : ProviderResult → Type 0
  ReadableRecord r = (p : AddrInfo) → r.provider ≡ some p → IsReadable p

  abbrev pub HasProvider : ProviderResult → Type 0
  HasProvider r = (p : AddrInfo) × (r.provider ≡ some p)

  read_node-write_node :
      (r : ProviderResult) (n : ProviderResultNode)
      → ReadableRecord r
      → write_node lib r ≡ ok n
      → HasProvider r × (read_node lib n ≡ ok r)
  unfolding write_node read_node bytes_to_peer_id bytes_to_multiaddr peer_id_to_bytes
      multiaddr_to_bytes
  read_node-write_node r n readable e = of_provider r.provider refl e
    where
      of_provider :
          (o : Option AddrInfo)
          → r.provider ≡ o
          → elim o [
            | none ↦ err lib.no_value
            | some p ↦ ok (record {
              context_id = r.context_id;
              metadata = r.metadata;
              provider = record { id = p.id; addrs = map (multiaddr_to_bytes lib) p.addrs };
            })
          ]
            ≡ ok n
          → HasProvider r × (read_node lib n ≡ ok r)
      of_provider none q f = cc
      of_provider (some p) q f =
          let readable_p = readable p q in
          (
            (p, q),
            subst (λ m. read_node lib m ≡ ok r) (ok-injective f)
                (rw readable_p.id_lem (
                  rw
                    (traverse-map lib.new_multiaddr_bytes lib.multiaddr_bytes p.addrs
                      readable_p.addrs_lem)
                    (ap
                      (λ x.
                        ok (record {
                          context_id = r.context_id;
                          metadata = r.metadata;
                          provider = x;
                        }))
                      (sym q)))),
          )

  traverse-write_node :
      (rs : List ProviderResult) (ns : List ProviderResultNode)
      → All ReadableRecord rs
      → traverse (write_node lib) rs ≡ ok ns
      → All HasProvider rs × (traverse (read_node lib) ns ≡ ok rs)
  traverse-write_node [] ns h e =
      (tt, subst (λ m. traverse (read_node lib) m ≡ ok []) (ok-injective e) refl)
  traverse-write_node (r ∷ rs) ns h e =
      let (n, written, e₁) = on_ok_lem (write_node lib r) _ ns e in
      let (ns', rest, e₂) = on_ok_lem (traverse (write_node lib) rs) _ ns e₁ in
      let (has, back) = read_node-write_node r n h.0 written in
      let (all, backs) = traverse-write_node rs ns' h.1 rest in
      (
        (has, all),
        subst (λ m. traverse (read_node lib) m ≡ ok (r ∷ rs)) (ok-injective e₂)
            (rw back (rw backs)),
      )

  -- Over an encoding that reads what it writes, and for records whose peer ids and multiaddrs are
  -- read from their own bytes: when MarshalCBOR of the records succeeds, every record has a
  -- provider, and UnmarshalCBOR gives the records back.
  pub unmarshal_cbor-marshal_cbor :
      (t : SchemaType) (rs : List ProviderResult) (text : Bytes)
      → ((ns : List ProviderResultNode) (text' : Bytes)
          → lib.encode t ns ≡ ok text'
          → lib.decode t text' ≡ ok ns)
      → All ReadableRecord rs
      → marshal_cbor lib t rs ≡ ok text
      → All HasProvider rs × (unmarshal_cbor lib t text ≡ ok rs)
  unfolding marshal_cbor unmarshal_cbor
  unmarshal_cbor-marshal_cbor t rs text reads h e =
      let (ns, written, encoded) = on_ok_lem (traverse (write_node lib) rs) _ text e in
      let (has, back) = traverse-write_node rs ns h written in
      (has, rw (reads ns text encoded) back)

  -- A record that has a provider whose peer id and multiaddrs are read from their own bytes.
  abbrev pub IsCachable : ProviderResult → Type 0
  IsCachable r = HasProvider r × ReadableRecord r

  write_node_ok :
      (r : ProviderResult) → HasProvider r → (n : ProviderResultNode) × (write_node lib r ≡ ok n)
  unfolding write_node
  write_node_ok r (p, e) = rw e (_, refl)

  traverse-write_node_ok :
      (rs : List ProviderResult)
      → All IsCachable rs
      → (ns : List ProviderResultNode) × (traverse (write_node lib) rs ≡ ok ns)
  traverse-write_node_ok [] h = ([], refl)
  traverse-write_node_ok (r ∷ rs) h =
      let (n, e) = write_node_ok r h.0.0 in
      let (ns, f) = traverse-write_node_ok rs h.1 in (n ∷ ns, rw (e, traverse) (rw f refl))

  -- Over an encoding that writes all nodes and reads what it writes, such records have a text, which
  -- is read as these records.
  pub marshal_cbor_lem :
      (t : SchemaType)
      → ((ns : List ProviderResultNode) → (text : Bytes) × (lib.encode t ns ≡ ok text))
      → ((ns : List ProviderResultNode) (text : Bytes)
          → lib.encode t ns ≡ ok text
          → lib.decode t text ≡ ok ns)
      → (rs : List ProviderResult) → All IsCachable rs
      → (text : Bytes) × (marshal_cbor lib t rs ≡ ok text) × (unmarshal_cbor lib t text ≡ ok rs)
  unfolding marshal_cbor
  marshal_cbor_lem t encodes reads rs h =
      let (ns, e) = traverse-write_node_ok rs h in
      let (text, f) = encodes ns in
      let written : marshal_cbor lib t rs ≡ ok text = rw e f in
      (
        text,
        written,
        (unmarshal_cbor-marshal_cbor t rs text reads (All-mono (λ r (has, readable). readable) rs h)
            written).1,
      )

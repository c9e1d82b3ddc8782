-- ===== src/Graph/Builder/Endpoints.antt =====
-- The edges that an event yields join entities of the event.
use aegis_soc.Common.{
  String, ◌≡◌, inl, inr, Bool, true, false, Option, none, some, List, [], ◌∷◌, ◌++◌, if◌then◌else◌,
  contains, head?, All, All-append, All-keep, Bool-cases,
}
use aegis_soc.Common.Floats.{Floats}
use aegis_soc.Common.Json.{Fields}
use aegis_soc.Schema.{NodeType, EdgeType, accessed, created, modified}
use aegis_soc.Schema.Events.{CanonicalEvent, EntityRef}
use aegis_soc.Graph.Builder.{
  has_type, all_entities, find_entity, or_entity, last_entity, Draft, between, connection_edges,
  logon_edges, process_edges, to_each, file_edges, network_edges, draft_edges,
}

module _ (ids : List String) where
  abbrev pub IsKnown : EntityRef → Type 0
  IsKnown e = contains ids e.id ≡ true

  abbrev pub IsKnown? : Option EntityRef → Type 0
  IsKnown? none = Unit
  IsKnown? (some e) = IsKnown e

  find_entity-IsKnown :
      (l : List EntityRef) (t : NodeType) → All IsKnown l → IsKnown? (find_entity l t)
  unfolding find_entity
  find_entity-IsKnown [] t h = tt
  find_entity-IsKnown (e ∷ l) t h = elim (Bool-cases (has_type t e)) [
    | inl is ↦ rw (find_entity, is) h.0
    | inr isnt ↦ rw (find_entity, isnt) (find_entity-IsKnown l t h.1)
  ]

  all_entities-IsKnown :
      (l : List EntityRef) (t : NodeType) → All IsKnown l → All IsKnown (all_entities l t)
  unfolding all_entities
  all_entities-IsKnown l t h = All-keep (has_type t) IsKnown l h

  or_entity-IsKnown : (a b : Option EntityRef) → IsKnown? a → IsKnown? b → IsKnown? (or_entity a b)
  or_entity-IsKnown none b h k = k
  or_entity-IsKnown (some e) b h k = h

  head-IsKnown : (l : List EntityRef) → All IsKnown l → IsKnown? (head? l)
  head-IsKnown [] h = tt
  head-IsKnown (e ∷ l) h = h.0

  last_entity-IsKnown : (l : List EntityRef) → All IsKnown l → IsKnown? (last_entity l)
  unfolding last_entity
  last_entity-IsKnown [] h = tt
  last_entity-IsKnown (e ∷ l) h =
      or_entity-IsKnown (last_entity l) (some e) (last_entity-IsKnown l h.1) h.0

module _ (f : Floats) (ids : List String) where
  -- Both ends of every draft are known.
  pub record AreLocal (drafts : List (Draft f)) : Type 0 where
    pub ends : All (λ d. IsKnown ids d.0 × IsKnown ids d.1) drafts

module _ {f : Floats} {ids : List String} where
  nil-AreLocal : AreLocal f ids []
  nil-AreLocal = record { ends = tt }

  between-AreLocal :
      (a b : Option EntityRef) (t : EdgeType) (props : Fields)
      → IsKnown? ids a
      → IsKnown? ids b
      → AreLocal f ids (between f a b t props)
  between-AreLocal none b t props h k = nil-AreLocal
  between-AreLocal (some a) none t props h k = nil-AreLocal
  between-AreLocal (some a) (some b) t props h k = record { ends = ((h, k), tt) }

  if-AreLocal :
      (c : Bool) (l m : List (Draft f))
      → AreLocal f ids l
      → AreLocal f ids m
      → AreLocal f ids (if c then l else m)
  if-AreLocal true l m h k = h
  if-AreLocal false l m h k = k

  append-AreLocal :
      {l m : List (Draft f)} → AreLocal f ids l → AreLocal f ids m → AreLocal f ids (l ++ m)
  append-AreLocal {l = l} {m = m} h k = record {
    ends = All-append (λ d. IsKnown ids d.0 × IsKnown ids d.1) l m h.ends k.ends;
  }

  to_each-AreLocal :
      (a : Option EntityRef) (l : List EntityRef) (t : EdgeType)
      → IsKnown? ids a
      → All (IsKnown ids) l
      → AreLocal f ids (to_each f a l t)
  unfolding to_each
  to_each-AreLocal a [] t h k = nil-AreLocal
  to_each-AreLocal a (e ∷ l) t h k =
      append-AreLocal (between-AreLocal a (some e) t _ h k.0) (to_each-AreLocal a l t h k.1)

  logon_edges-AreLocal :
      (event : CanonicalEvent f) (user host : Option EntityRef)
      → IsKnown? ids user
      → IsKnown? ids host
      → AreLocal f ids (logon_edges f event user host)
  unfolding logon_edges
  logon_edges-AreLocal event user host h k =
      append-AreLocal (if-AreLocal _ _ _ (between-AreLocal user host _ _ h k) nil-AreLocal)
        (between-AreLocal user host _ _ h k)

  process_edges-AreLocal :
      (event : CanonicalEvent f) (host : Option EntityRef) (l : List EntityRef)
      → IsKnown? ids host
      → All (IsKnown ids) l
      → AreLocal f ids (process_edges f event host l)
  unfolding process_edges
  process_edges-AreLocal event host [] h k = nil-AreLocal
  process_edges-AreLocal event host (p ∷ []) h k = between-AreLocal host (some p) _ _ h k.0
  process_edges-AreLocal event host (child ∷ parent ∷ l) h k =
      between-AreLocal (some parent) (some child) _ _ k.1.0 k.0

  file_edges-AreLocal :
      (event : CanonicalEvent f) (primary host : Option EntityRef) (l : List EntityRef)
      → IsKnown? ids primary
      → IsKnown? ids host
      → All (IsKnown ids) l
      → AreLocal f ids (file_edges f event primary host l)
  unfolding file_edges
  file_edges-AreLocal event primary host l p h k =
      let actor = or_entity-IsKnown ids primary host p h in
      append-AreLocal (if-AreLocal _ _ _ (to_each-AreLocal primary l accessed p k) nil-AreLocal) (
        if-AreLocal _ _ _ (to_each-AreLocal (or_entity primary host) l created actor k) (
          if-AreLocal _ _ _ (to_each-AreLocal (or_entity primary host) l modified actor k)
            nil-AreLocal))

  connection-AreLocal :
      (event : CanonicalEvent f) (host : Option EntityRef) (l : List EntityRef)
      → IsKnown? ids host
      → All (IsKnown ids) l
      → AreLocal f ids (connection_edges f event host l)
  unfolding connection_edges
  connection-AreLocal event host [] h k = nil-AreLocal
  connection-AreLocal event host (a ∷ []) h k =
      if-AreLocal _ _ _ (between-AreLocal host (some a) _ _ h k.0) nil-AreLocal
  connection-AreLocal event host (a ∷ b ∷ []) h k = between-AreLocal (some a) (some b) _ _ k.0 k.1.0
  connection-AreLocal event host (a ∷ b ∷ c ∷ l) h k = nil-AreLocal

  network_edges-AreLocal :
      (event : CanonicalEvent f) (host domain : Option EntityRef) (l : List EntityRef)
      → IsKnown? ids host
      → IsKnown? ids domain
      → All (IsKnown ids) l
      → AreLocal f ids (network_edges f event host domain l)
  unfolding network_edges
  network_edges-AreLocal event host domain l h d k =
      append-AreLocal (connection-AreLocal event host l h k)
        (between-AreLocal domain (last_entity l) _ _ d (last_entity-IsKnown ids l k))

  pub draft_edges-AreLocal :
      (event : CanonicalEvent f)
      → All (IsKnown ids) event.entities
      → AreLocal f ids (draft_edges f event)
  unfolding draft_edges
  draft_edges-AreLocal event k =
      append-AreLocal (logon_edges-AreLocal event _ _ (one NodeType.user) (one NodeType.host)) (
        append-AreLocal
          (process_edges-AreLocal event _ _ (one NodeType.host) (every NodeType.process))
          (append-AreLocal
            (file_edges-AreLocal event _ _ _ primary (one NodeType.host) (every NodeType.file))
            (append-AreLocal
              (network_edges-AreLocal event _ _ _ (one NodeType.host) (one NodeType.domain)
                (every NodeType.ip))
              (append-AreLocal
                (between-AreLocal _ _ _ _
                  (or_entity-IsKnown ids _ _ primary
                    (or_entity-IsKnown ids _ _ (one NodeType.user) (one NodeType.host)))
                  (one NodeType.url))
                (append-AreLocal (between-AreLocal _ _ _ _ primary (one NodeType.registry_key)) (
                  append-AreLocal
                    (between-AreLocal _ _ _ _ (one NodeType.email) (one NodeType.user))
                    (append-AreLocal (between-AreLocal _ _ _ _ primary (one NodeType.hash)) (
                      to_each-AreLocal _ _ _
                        (or_entity-IsKnown ids _ _ primary
                          (or_entity-IsKnown ids _ _ (one NodeType.host) (one NodeType.user)))
                        (every NodeType.attack_technique)))))))))
    where
      one : (t : NodeType) → IsKnown? ids (find_entity event.entities t)
      one t = find_entity-IsKnown ids event.entities t k

      every : (t : NodeType) → All (IsKnown ids) (all_entities event.entities t)
      every t = all_entities-IsKnown ids event.entities t k

      primary : IsKnown? ids (head? (all_entities event.entities NodeType.process))
      primary =
          head-IsKnown ids (all_entities event.entities NodeType.process) (every NodeType.process)

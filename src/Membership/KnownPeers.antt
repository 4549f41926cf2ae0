-- ===== src/Membership/KnownPeers.antt =====
-- src/lib/membership/KnownPeers.cpp. A Peer is shared by the table of members and the map of
-- addresses, so both hold its place in a store of peers.
pub mod Lookup
pub mod History
pub mod Known
pub mod Listing
use turbopump.Prelude.{
  ℕ, ◌≡◌, Bool, true, false, Bytes, List, [], ◌∷◌, ◌++◌, Option, none, some, codes, length,
  get_elem?, set, str_eq, is_empty, map, if◌then◌else◌,
}
use turbopump.Common.VectorClock.{Clocks, VersionText}
use turbopump.Storage.Streams.{Streams}
use turbopump.Membership.Peer.{Peer, Text, address, to_string, from_string}

-- socket_address of the library beside the program: `ip_only a` is socket_address(a.address()).
pub record Addresses : Type 1 where
  pub Address : Type 0
  pub parse : Bytes → Option Address
  pub ip_only : Address → Address
  pub same : Address → Address → Bool

pub record AddressLaws (a : Addresses) : Type 0 where
  pub same_refl : (x : a.Address) → a.same x x ≡ true
  pub same→eq : (x y : a.Address) → a.same x y ≡ true → x ≡ y

-- kademlia::routing_table over places, by the uid of the peer there. `random` is its own choice.
pub record RoutingTable : Type 1 where
  pub Table : Type 0
  pub find : Table → Bytes → Option ℕ
  pub insert : Table → Bytes → ℕ → Table
  pub erase : Table → Bytes → Bool × Table
  pub set_origin : Table → Bytes → Table
  pub random : Table → Option ℕ
  pub members : Table → List ℕ

pub record TableLaws (t : RoutingTable) : Type 0 where
  pub find-insert :
      (m : t.Table) (uid : Bytes) (r : ℕ)
      → t.find m uid ≡ none
      → t.find (t.insert m uid r) uid ≡ some r
  pub find-insert_ne :
      (m : t.Table) (uid other : Bytes) (r : ℕ)
      → str_eq uid other ≡ false
      → t.find (t.insert m uid r) other ≡ t.find m other
  pub find-erase : (m : t.Table) (uid : Bytes) → t.find (t.erase m uid).1 uid ≡ none
  pub find-erase_ne :
      (m : t.Table) (uid other : Bytes)
      → str_eq uid other ≡ false
      → t.find (t.erase m uid).1 other ≡ t.find m other

module _ (a : Addresses) where
  open a use {Address, parse, ip_only, same}

  -- std::unordered_map
  unfoldable pub find_ip : Address → List (Address × ℕ) → Option ℕ
  find_ip x [] = none
  find_ip x ((y, r) ∷ rest) = let later = find_ip x rest in if same y x then some r else later

  unfoldable pub erase_ip : Address → List (Address × ℕ) → List (Address × ℕ)
  erase_ip x [] = []
  erase_ip x ((y, r) ∷ rest) =
      let later = erase_ip x rest in if same y x then later else (y, r) ∷ later

  unfoldable pub put_ip : Address → ℕ → List (Address × ℕ) → List (Address × ℕ)
  unfolding erase_ip
  put_ip x r m = (x, r) ∷ erase_ip x m

  -- The loop of `update`.
  unfoldable pub add_ips : List Bytes → ℕ → List (Address × ℕ) → List (Address × ℕ)
  add_ips [] r m = m
  add_ips (ip ∷ rest) r m =
      add_ips rest r (elim (parse ip) [ none ↦ m | some x ↦ put_ip (ip_only x) r (put_ip x r m) ])

  -- The loop of `remove`. `matches` is the test `(*it)->uid == uid`.
  unfoldable pub remove_ips : List Bytes → Bool → List (Address × ℕ) → List (Address × ℕ)
  remove_ips [] matches m = m
  remove_ips (ip ∷ rest) matches m = remove_ips rest matches (elim (parse ip) [
    | none ↦ m
    | some x ↦ if matches then erase_ip (ip_only x) (erase_ip x m) else erase_ip x m
  ])

module _ (a : Addresses) (t : RoutingTable) where
  open a use {Address, ip_only}
  open t use {Table}

  pub record State : Type 0 where
    pub self : Option Peer
    pub members : Table
    pub peers : List Peer
    pub ips : List (Address × ℕ)
    -- MyMemberId
    pub my_id : Bytes

  -- The place of the peer, which is new or has its addresses replaced.
  unfoldable pub place : Bytes → List Bytes → State → ℕ × State
  place uid ips s = elim (t.find s.members uid) [
    | none ↦
        let r = length s.peers in
        (
          r,
          record s {
            members = t.insert s.members uid r;
            peers = s.peers ++ record { uid = uid; ips = ips } ∷ [];
          },
        )
    | some r ↦ (
      r,
      record s {
        peers = elim (get_elem? s.peers r) [
          | none ↦ s.peers
          | some p ↦ set s.peers r (record p { ips = ips })
        ];
      },
    )
  ]

  unfoldable pub is_none : Option ℕ → Bool
  is_none none = true
  is_none (some r) = false

  update_member : Bytes → List Bytes → State → Bool × State
  update_member uid ips s =
      let placed = place uid ips s in
      (
        is_none (t.find s.members uid),
        record placed.1 { ips = add_ips a ips placed.0 placed.1.ips },
      )

  -- `update` by whether there is a self.
  unfoldable pub update_for : Option Peer → Bytes → List Bytes → State → Bool × State
  unfolding update_member
  update_for none uid ips s = (
    true,
    record s {
      self = some (record { uid = uid; ips = ips });
      members = t.set_origin s.members uid;
    },
  )
  update_for (some me) uid ips s =
      if str_eq uid me.uid
      then (false, record s { self = some (record me { ips = ips }) })
      else update_member uid ips s

  unfoldable pub update : Bytes → List Bytes → State → Bool × State
  unfolding update_for
  update uid ips s = update_for s.self uid ips s

  unfoldable pub peer_at : State → ℕ → Option Peer
  peer_at s r = get_elem? s.peers r

  -- `remove` by what is found.
  unfoldable pub remove_at : Option ℕ → Bytes → State → Bool × State
  remove_at none uid s = (false, s)
  remove_at (some r) uid s =
      let erased = t.erase s.members uid in
      (
        erased.0,
        record s {
          members = erased.1;
          ips = elim (peer_at s r) [
            | none ↦ s.ips
            | some p ↦ remove_ips a p.ips (str_eq p.uid uid) s.ips
          ];
        },
      )

  unfoldable pub remove : Bytes → State → Bool × State
  unfolding remove_at
  remove uid s = remove_at (t.find s.members uid) uid s

  -- `generated` is MyMemberId::generate.
  unfoldable pub add_self : (generated : Bytes) → State → Bool × State
  add_self generated s = elim s.self [
    | some me ↦ (false, record s { my_id = me.uid })
    | none ↦ (
      true,
      record s {
        self = some (record { uid = generated; ips = [] });
        members = t.set_origin s.members generated;
        my_id = generated;
      },
    )
  ]

  unfoldable pub deref : State → Option ℕ → Option Peer
  deref s none = none
  deref s (some r) = peer_at s r

  unfoldable pub lookup : Bytes → State → Option Peer
  lookup uid s = deref s (t.find s.members uid)

  unfoldable pub lookup_addr : Address → State → Option Peer
  lookup_addr x s =
      deref s (elim (find_ip a x s.ips) [ some r ↦ some r | none ↦ find_ip a (ip_only x) s.ips ])

  unfoldable pub random_peer : State → Option Peer
  random_peer s = deref s (t.random s.members)

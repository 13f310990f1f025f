-- ===== src/Client/Leak.antt =====
-- Numbers that the classes do not take back, and a number that two objects share.
use mathlib.Core.Path.{subst}
use j_sdntrace.Base.{
  ltb, ◌==◌, Bool-cases, length, ℕ, ◌+◌, ◌≤◌, ◌<◌, ◌≡◌, refl, sym, ap, inl, inr, Bool, true, false,
  Option, none, some, List, [], ◌∷◌, arith,
}
use j_sdntrace.Instances.{Native, Message, handle}
use j_sdntrace.Instances.Sender.{native_open_raw_socket, native_close_raw_socket}
use j_sdntrace.Instances.Captor.{native_open_live}
use j_sdntrace.Client.{
  Client, max_instances, raw_socket_id, too_many, out_of_bounds, instance_of, thrown, unreserve_id,
  constructed, captor_open_device, sender_open_raw_socket, captor_close, sender_close,
  get_jpcap_sender_instance,
}
use j_sdntrace.Client.Opening.{native_open_live-some, captor_close-own}
use j_sdntrace.Client.Reserve.{IsFull, reserve_id_lem, reserve_id-lowest}

-- What the system answers to an attempt to open a device that fails: the environment, the network
-- that `pcap_lookupnet` finds and the link type.
abbrev pub Attempt : Type 0
Attempt = ℕ × Option (ℕ × ℕ) × ℕ

unfoldable pub failed_opens : List Attempt → Client → Client
failed_opens [] s = s
failed_opens ((env, net, linktype) ∷ rest) s =
    failed_opens rest (captor_open_device env true none net linktype s).1

constructed-full :
    (open_native : ℕ → Native → Message × Native) (s : Client)
    → IsFull max_instances 0 s.flags
    → constructed open_native s ≡ (thrown too_many, s)
constructed-full open_native s full = elim (reserve_id_lem s) [
  | inl (refused, all) ↦ rw (constructed, refused) refl
  | inr (k, s1, given, (first, flags, native)) ↦ absurd (ground (arith, first.0, first.2, full k))
]

constructed-one_more :
    (open_native : ℕ → Native → Message × Native) (s : Client) (m : ℕ)
    → IsFull m 0 s.flags
    → m < max_instances
    → IsFull (m + 1) 0 (constructed open_native s).1.flags
constructed-one_more open_native s m full below = elim (reserve_id_lem s) [
  | inl (refused, all) ↦ rw (constructed, refused) (λ j low high. all j low (omega arith))
  | inr (k, s1, given, (first, flags, native)) ↦
      rw (constructed, given, flags)
        (λ j low high. ground (arith, first.0, first.3 j, full j, full k))
]

failed_opens-IsFull :
    (attempts : List Attempt) (s : Client) (m : ℕ)
    → IsFull m 0 s.flags
    → max_instances ≤ m + length attempts
    → IsFull max_instances 0 (failed_opens attempts s).flags
unfolding failed_opens captor_open_device
failed_opens-IsFull [] s m full enough = λ j low high. full j low (omega arith)
failed_opens-IsFull ((env, net, linktype) ∷ rest) s m full enough =
    elim (Bool-cases (ltb m max_instances)) [
      | inl below ↦
          failed_opens-IsFull rest (captor_open_device env true none net linktype s).1 (m + 1)
            (constructed-one_more (λ id. native_open_live id env true none net linktype) s m full
              (ground arith))
            (omega arith)
      | inr past ↦
          let all : IsFull max_instances 0 s.flags = λ j low high. full j low (ground arith) in
          let unchanged =
            constructed-full (λ id. native_open_live id env true none net linktype) s all in
          subst (λ t. IsFull max_instances 0 (failed_opens rest t).flags)
            (sym (ap (λ r. r.1) unchanged)) (failed_opens-IsFull rest s m full (ground arith))
    ]

-- From any state, after attempts to open a device that pcap refuses, as many as there are numbers:
-- every opening throws that too many devices are open and changes nothing, whatever pcap would answer,
-- although no opening has succeeded: an attempt that fails keeps its number.
pub failed_opens_use_up :
    (attempts : List Attempt) (s : Client) (env : ℕ) (device : Bool) (opened : Option ℕ)
    (net : Option (ℕ × ℕ)) (linktype : ℕ)
    → max_instances ≤ length attempts
    → captor_open_device env device opened net linktype (failed_opens attempts s)
      ≡ (thrown too_many, failed_opens attempts s)
unfolding captor_open_device
failed_opens_use_up attempts s env device opened net linktype enough =
    constructed-full (λ id. native_open_live id env device opened net linktype)
      (failed_opens attempts s)
      (failed_opens-IsFull attempts s 0 (λ j low high. absurd (omega arith)) (omega arith))

-- A captor is open with the number `id`, which is the lowest whose flag will be clear once it is closed.
-- A sender of the captor is made, the captor is closed, and another device is opened: the new captor has
-- the same number. Closing the sender then closes the new captor's handle, throws nothing, and marks the
-- number as free, while the new captor is still in use.
pub shared_number_closes :
    (s : Client) (id h h2 env : ℕ) (net : Option (ℕ × ℕ)) (linktype : ℕ)
    → s.native.pcds id ≡ some h
    → s.native.live h ≡ true
    → id < max_instances
    → ((j : ℕ) → j < id → s.flags j ≡ true)
    → let sender = get_jpcap_sender_instance id in
      (s1 : Client) × (s2 : Client) × (s3 : Client) × (captor_close id s ≡ some (none, s1))
      × (captor_open_device env true (some h2) net linktype s1 ≡ (instance_of id, s2))
      × (handle s2.native id ≡ some h2)
      × (sender_close sender s2 ≡ some (none, s3))
      × (handle s3.native id ≡ none)
      × (s3.native.live h2 ≡ false)
      × (s3.flags id ≡ false)
unfolding get_jpcap_sender_instance captor_open_device sender_close
shared_number_closes s id h h2 env net linktype found allocated within lower =
    let (s1, closed, flags, table, live) = captor_close-own id h s allocated found within in
    let clear : s1.flags id ≡ false = rw flags (ground arith) in
    let below : (j : ℕ) → j < id → s1.flags j ≡ true = λ j lt. rw flags (ground (arith, lower j)) in
    let (r, given, (first, rflags, native)) = reserve_id-lowest s1 id clear within below in
    let empty : r.native.pcds id ≡ none = rw (native, table) (ground arith) in
    let (message, found2, live2) = native_open_live-some id env h2 net linktype r.native empty in
    let s2 : Client = record r {
      native = (native_open_live id env true (some h2) net linktype r.native).1;
    } in
    let (s3, closed3, flags3, table3, live3) = captor_close-own id h2 s2 live2 found2 within in
    let own : id == raw_socket_id ≡ false = ground arith in
    (
      s1,
      s2,
      s3,
      closed,
      rw (captor_open_device, constructed, given, message) refl,
      rw (found2, live2) refl,
      rw (sender_close, own) closed3,
      rw table3 (ground arith),
      rw live3 (ground arith),
      rw flags3 (ground arith),
    )

-- A sender for the raw socket is opened while the flag of a number is clear: it takes that number, but
-- closing the sender throws that the index is out of bounds and leaves every flag as it is, so that
-- the number is not given out again.
pub raw_sender_close :
    (s : Client) (n : ℕ)
    → s.native.soc_num ≡ none
    → (j : ℕ) → j < max_instances
    → s.flags j ≡ false
    → (k : ℕ) × (s1 : Client) × (sender_open_raw_socket (some n) s
        ≡ (instance_of raw_socket_id, s1))
      × (s.flags k ≡ false)
      × (s1.flags k ≡ true)
      × (sender_close raw_socket_id s1 ≡ some (some out_of_bounds, s1))
unfolding sender_open_raw_socket sender_close captor_close native_close_raw_socket unreserve_id
    native_open_raw_socket
raw_sender_close s n closed j within clear = elim (reserve_id_lem s) [
  | inl (refused, full) ↦ absurd (ground (arith, clear, full j))
  | inr (k, s1, given, (first, flags, native)) ↦
      let closed1 : s1.native.soc_num ≡ none = rw native closed in
      (
        k,
        record s1 { native = (native_open_raw_socket (some n) s1.native).1 },
        rw (sender_open_raw_socket, constructed, given, native_open_raw_socket, closed1) refl,
        first.0,
        rw flags (ground arith),
        rw (sender_close, native_open_raw_socket, closed1) refl,
      )
]

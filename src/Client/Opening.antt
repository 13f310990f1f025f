-- ===== src/Client/Opening.antt =====
-- What opening and closing a device answers, and what it leaves.
use j_sdntrace.Instances.Sound.{handle-some}
use mathlib.Core.Path.{subst}
use j_sdntrace.Base.{
  ltb, Option-cases, ℕ, ◌≤◌, ◌<◌, ◌≡◌, refl, ap, ◌⊎◌, inl, inr, true, false, Option, none, some,
  arith,
}
use j_sdntrace.Instances.{Native, no_message, pcap_error, update, release, handle, native_close}
use j_sdntrace.Instances.Captor.{native_open_live}
use j_sdntrace.Client.{
  Client, max_instances, too_many, native_says, Outcome, instance_of, thrown, unreserve_id, checked,
  constructed, captor_open_device, captor_close,
}
use j_sdntrace.Client.Reserve.{IsFull, IsFirst, reserve_id_lem}
use j_sdntrace.Client.Keep.{IsFlagged}
use j_sdntrace.Client.Reach.{open_device, Reached, after, reached-IsGood}

-- A number that is not flagged has an empty entry.
IsFlagged-empty : (s : Client) (k : ℕ) → IsFlagged s → s.flags k ≡ false → s.native.pcds k ≡ none
IsFlagged-empty s k flagged clear = elim (Option-cases (s.native.pcds k)) [
  | inl empty ↦ empty
  | inr (h, found) ↦ absurd (ground (arith, clear, flagged k h found))
]

abbrev pub outcome_of : ℕ → Option ℕ → Outcome
outcome_of k none = thrown (native_says pcap_error)
outcome_of k (some h) = instance_of k

native_open_live-given :
    (id env : ℕ) (opened : Option ℕ) (net : Option (ℕ × ℕ)) (linktype : ℕ) (s : Native)
    → s.pcds id ≡ none
    → let made = native_open_live id env true opened net linktype s in
      (checked id made.0 ≡ outcome_of id opened) × (made.1.pcds ≡ update s.pcds id opened)
unfolding native_open_live
native_open_live-given id env none none linktype s empty = rw (native_open_live, empty) (refl, refl)
native_open_live-given id env none (some n) linktype s empty =
    rw (native_open_live, empty) (refl, refl)
native_open_live-given id env (some h) none linktype s empty =
    rw (native_open_live, empty) (refl, refl)
native_open_live-given id env (some h) (some n) linktype s empty =
    rw (native_open_live, empty) (refl, refl)

pub native_open_live-some :
    (id env h : ℕ) (net : Option (ℕ × ℕ)) (linktype : ℕ) (s : Native)
    → s.pcds id ≡ none
    → let made = native_open_live id env true (some h) net linktype s in
      (made.0 ≡ no_message) × (made.1.pcds id ≡ some h) × (made.1.live h ≡ true)
unfolding native_open_live
native_open_live-some id env h none linktype s empty = ground arith
native_open_live-some id env h (some n) linktype s empty = ground arith

-- After any sequence of calls that open captors and senders, close them, use them, and open dump
-- files without closing one, in which pcap allocated handles that were not in use, with a name
-- given and whatever pcap answers, `openDevice` throws that too many devices are open, with nothing
-- changed, exactly if all 255 flags are set. Otherwise it takes the number `k` of the first clear
-- flag, sets that flag only, stores what pcap opened in the entry `k` of the table only, and
-- returns the instance `k` if pcap opened one and throws pcap's message if not. It never reports
-- that another instance uses the number.
pub reached_open_device :
    (s : Client) (env : ℕ) (opened : Option ℕ) (net : Option (ℕ × ℕ)) (linktype : ℕ)
    → Reached s
    → (IsFull max_instances 0 s.flags
        × (captor_open_device env true opened net linktype s ≡ (thrown too_many, s)))
      ⊎ ((k : ℕ) × (s' : Client) × IsFirst max_instances 0 s.flags k
          × (captor_open_device env true opened net linktype s ≡ (outcome_of k opened, s'))
          × (s'.flags ≡ update s.flags k true)
          × (s'.native.pcds ≡ update s.native.pcds k opened))
unfolding captor_open_device
reached_open_device s env opened net linktype reached = elim (reserve_id_lem s) [
  | inl (refused, full) ↦ inl (full, rw (captor_open_device, constructed, refused) refl)
  | inr (k, s1, given, (first, flags, native)) ↦
      let empty = IsFlagged-empty s k (reached-IsGood s reached).1 first.0 in
      let (outcome, table) = native_open_live-given k env opened net linktype s.native empty in
      inr (
        k,
        record s1 { native = (native_open_live k env true opened net linktype s.native).1 },
        first,
        rw (captor_open_device, constructed, given, native, outcome) refl,
        flags,
        table,
      )
]

pub captor_close-own :
    (k h : ℕ) (s : Client)
    → s.native.live h ≡ true
    → s.native.pcds k ≡ some h
    → k < max_instances
    → (s' : Client) × (captor_close k s ≡ some (none, s'))
      × (s'.flags ≡ update s.flags k false)
      × (s'.native.pcds ≡ update s.native.pcds k none)
      × (s'.native.live ≡ update s.native.live h false)
unfolding captor_close unreserve_id native_close
captor_close-own k h s allocated found within =
    let inside : ltb k max_instances ≡ true = ground arith in
    (
      record {
        flags = update s.flags k false;
        native = record (release h s.native) { pcds = update s.native.pcds k none };
      },
      rw (captor_close, native_close, found, allocated, unreserve_id, inside) refl,
      refl,
      refl,
      refl,
    )

-- After any sequence of calls that open captors and senders, close them, use them, and open dump
-- files without closing one, in which pcap allocated handles that were not in use, while the flag
-- of some number is clear and pcap opens a handle that is not in use: `openDevice` returns an
-- instance, of the number `k` at most that number, on which pcap may be called with that handle;
-- and closing it, without an exception, leaves every flag and every entry of the table as before
-- the opening.
pub open_device-close :
    (s : Client) (env h : ℕ) (net : Option (ℕ × ℕ)) (linktype j : ℕ)
    → Reached s
    → s.native.live h ≡ false
    → j < max_instances
    → s.flags j ≡ false
    → (k : ℕ) × (s1 : Client) × (s2 : Client) × (captor_open_device env true (some h) net linktype s
        ≡ (instance_of k, s1))
      × (k ≤ j)
      × (handle s1.native k ≡ some h)
      × (captor_close k s1 ≡ some (none, s2))
      × ((i : ℕ) → s2.flags i ≡ s.flags i)
      × ((i : ℕ) → s2.native.pcds i ≡ s.native.pcds i)
open_device-close s env h net linktype j reached fresh within clear =
    elim (reached_open_device s env (some h) net linktype reached) [
      | inl (full, refused) ↦ absurd (ground (arith, clear, full j))
      | inr (k, s1, first, made, flags, table) ↦
          let reached1 : Reached s1 = subst Reached (ap (λ r. r.1) made) (
            after reached
              (open_device env true (some h) net linktype (λ h2 e. ground (arith, fresh)))) in
          let good = reached-IsGood s reached in
          let good1 = reached-IsGood s1 reached1 in
          let found : s1.native.pcds k ≡ some h = rw table (ground arith) in
          let (s2, closed, flags2, table2, live2) =
            captor_close-own k h s1 (good1.0.0 k h found) found first.2 in
          (
            k,
            s1,
            s2,
            made,
            ground (arith, clear, first.3 j),
            handle-some k h s1.native good1.0 found,
            closed,
            λ i. rw (flags2, flags) (ground (arith, first.0)),
            λ i. rw (table2, table) (ground (arith, IsFlagged-empty s k good.1 first.0)),
          )
    ]

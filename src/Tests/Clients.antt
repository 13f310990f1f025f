-- ===== src/Tests/Clients.antt =====
-- Concrete states of the Java classes, and calls on them.
use j_sdntrace.Base.{
  length, ℕ, zero, suc, ◌≤◌, ◌≡◌, refl, ap, ◌⊎◌, true, false, none, some, List, [], ◌∷◌, arith,
}
use j_sdntrace.Instances.{update, handle}
use j_sdntrace.Client.{
  Client, max_instances, too_many, instance_of, thrown, first_free, reserve_id, captor_open_device,
  captor_close, sender_close, get_jpcap_sender_instance,
}
use j_sdntrace.Instances.Captor.{native_open_live}
use j_sdntrace.Client.Reserve.{IsFull, IsFirst}
use j_sdntrace.Client.Reach.{open_device, Reached, loaded, after}
use j_sdntrace.Client.Opening.{outcome_of, reached_open_device, open_device-close}
use j_sdntrace.Client.Leak.{Attempt, failed_opens, failed_opens_use_up, shared_number_closes}
use j_sdntrace.Tests.States.{fresh}

-- The classes as they are loaded, and then with a captor of the handle 100.
abbrev loaded_classes : Client
loaded_classes = record { flags = λ i. false; native = fresh }

loaded_classes-Reached : Reached loaded_classes
loaded_classes-Reached = loaded (λ i. refl) (λ i. refl)

abbrev one_captor : Client
one_captor = (captor_open_device 7 true (some 100) none 1 loaded_classes).1

one_captor-Reached : Reached one_captor
one_captor-Reached =
    after loaded_classes-Reached (open_device 7 true (some 100) none 1 (λ h e. refl))

reached_open_device_example :
    (IsFull max_instances 0 one_captor.flags
      × (captor_open_device 7 true (some 101) none 1 one_captor ≡ (thrown too_many, one_captor)))
    ⊎ ((k : ℕ) × (s' : Client) × IsFirst max_instances 0 one_captor.flags k
        × (captor_open_device 7 true (some 101) none 1 one_captor ≡ (outcome_of k (some 101), s'))
        × (s'.flags ≡ update one_captor.flags k true)
        × (s'.native.pcds ≡ update one_captor.native.pcds k (some 101)))
reached_open_device_example = reached_open_device one_captor 7 (some 101) none 1 one_captor-Reached

not_in_use : one_captor.native.live 101 ≡ false
unfolding captor_open_device reserve_id first_free native_open_live
not_in_use = refl

clear_one : one_captor.flags 1 ≡ false
unfolding captor_open_device reserve_id first_free native_open_live
clear_one = refl

captor_found : one_captor.native.pcds 0 ≡ some 100
unfolding captor_open_device reserve_id first_free native_open_live
captor_found = refl

captor_allocated : one_captor.native.live 100 ≡ true
unfolding captor_open_device reserve_id first_free native_open_live
captor_allocated = refl

open_device-close_example :
    (k : ℕ) × (s1 : Client) × (s2 : Client) × (captor_open_device 7 true
        (some 101)
        none
        1
        one_captor
      ≡ (instance_of k, s1))
    × (k ≤ 1)
    × (handle s1.native k ≡ some 101)
    × (captor_close k s1 ≡ some (none, s2))
    × ((i : ℕ) → s2.flags i ≡ one_captor.flags i)
    × ((i : ℕ) → s2.native.pcds i ≡ one_captor.native.pcds i)
open_device-close_example =
    open_device-close one_captor 7 101 none 1 1 one_captor-Reached not_in_use (omega arith)
      clear_one

abbrev repeated : ℕ → List Attempt
repeated zero = []
repeated (suc n) = (7, none, 1) ∷ repeated n

length-repeated : (n : ℕ) → length (repeated n) ≡ n
length-repeated zero = refl
length-repeated (suc n) = ap suc (length-repeated n)

enough_attempts : max_instances ≤ length (repeated 255)
enough_attempts = omega (arith, length-repeated 255)

failed_opens_use_up_example :
    captor_open_device 7 true (some 100) none 1 (failed_opens (repeated 255) loaded_classes)
    ≡ (thrown too_many, failed_opens (repeated 255) loaded_classes)
failed_opens_use_up_example =
    failed_opens_use_up (repeated 255) loaded_classes 7 true (some 100) none 1 enough_attempts

shared_number_closes_example :
    let sender = get_jpcap_sender_instance 0 in
    (s1 : Client) × (s2 : Client) × (s3 : Client) × (captor_close 0 one_captor ≡ some (none, s1))
    × (captor_open_device 7 true (some 101) none 1 s1 ≡ (instance_of 0, s2))
    × (handle s2.native 0 ≡ some 101)
    × (sender_close sender s2 ≡ some (none, s3))
    × (handle s3.native 0 ≡ none)
    × (s3.native.live 101 ≡ false)
    × (s3.flags 0 ≡ false)
shared_number_closes_example =
    shared_number_closes one_captor 0 100 101 7 none 1 captor_found captor_allocated (omega arith)
      (λ j below. absurd (omega arith))

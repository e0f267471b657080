-- ===== src/Ipc/Tests.antt =====
-- A mailbox at work.
use aion_so.Base.{
  ℕ, ◌≡◌, ◌⊎◌, refl, none, some, List, [], ◌∷◌, ◌++◌, length, drop, replicate, arith,
}
use aion_so.Ipc.Contract.{post, fetch, read}
use aion_so.Ipc.{
  capacity, Delivery, DeliverError, TakeError, ok, err, Mailbox, new, deliver, take_into,
}
use aion_so.Ipc.Laws.{
  IsValid, new-IsValid, view, told, deliver_refines, take_into_refines, take_into-deliver,
}

abbrev hello : List ℕ
hello = 104 ∷ 101 ∷ 108 ∷ 108 ∷ 111 ∷ []

abbrev buffer : List ℕ
buffer = replicate 8 0

abbrev receipt : Delivery
receipt = record { sender = 3; len = 5 }

abbrev holding : Mailbox
holding = (deliver new 3 hello).1

deliver_refines_example :
    let (r, m') = deliver new 3 hello in
    IsValid m'
    × (view m' ≡ post capacity (view new) (3, hello))
    × ((r ≡ ok (record { sender = 3; len = 5 })) × (view new ≡ none) × (view m' ≡ some (3, hello))
        ⊎ ((e : DeliverError) × (r ≡ err e) × (m' ≡ new)))
deliver_refines_example = deliver_refines new 3 hello new-IsValid

take_into_refines_example :
    let (r, m', into') = take_into holding buffer in
    IsValid m'
    × (r ≡ told (view holding) 8)
    × (view m' ≡ fetch (view holding) 8)
    × (into' ≡ read (view holding) buffer)
    × (length into' ≡ 8)
take_into_refines_example = take_into_refines holding buffer deliver_refines_example.0

take_into-deliver_example :
    (take_into holding buffer
      ≡ (ok receipt, record holding { waiting = none }, hello ++ drop 5 buffer))
    × (receipt.sender ≡ 3)
    × (receipt.len ≡ 5)
unfolding deliver new
take_into-deliver_example = take_into-deliver new holding 3 hello buffer receipt refl (omega arith)

a_second_message_waits : (deliver holding 4 hello).0 ≡ err DeliverError.busy
unfolding deliver new
a_second_message_waits = refl

a_small_buffer_is_refused : (take_into holding (0 ∷ [])).0 ≡ err (TakeError.too_long 5)
unfolding deliver take_into new
a_small_buffer_is_refused = refl

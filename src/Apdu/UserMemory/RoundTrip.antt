-- ===== src/Apdu/UserMemory/RoundTrip.antt =====
-- What `BuildMe` of the memory requests writes, and what `GetParams` makes of it.
use edifice.Base.{
  ℕ, suc, ◌+◌, ◌-◌, ◌*◌, ◌/◌, ◌%◌, ◌≤◌, ◌<◌, bit_and, bit_or, ◌≡◌, ◌∙◌, refl, arith, true, false,
  ◌==◌, ltb, List, [], ◌∷◌, length, some, ret, success, memcpy, slice, fill, length-fill,
  memcpy_exact, slice_exact, take, slice-take, length-take,
}
use edifice.Base.Bits.{passes_below, agree_below, agree_below₂}
use edifice.Base.Digits.{and_256, and_0x0f, and_0xff, and_0xfffff, or_above, or_above₂, or_zero}
use edifice.Apdu.Types.{Env, Apdu, Addr}
use edifice.Apdu.PropertyValue.{copied}
use edifice.Apdu.UserMemory.{
  max_user_memory_size, store_place, load_place, high_bits, high_bits_unbracketed, build_read,
  get_read_params, capped, build_write, copy_memory, get_write_params,
}

-- Byte 2: the count, and the high four bits of the address above it.
abbrev mixed : ℕ → ℕ → ℕ
mixed number address = number % 16 + address / 65536 % 16 * 16

abbrev placed : ℕ → ℕ → ℕ → ℕ → List ℕ → List ℕ
placed l h number address rest =
    l ∷ h ∷ mixed number address ∷ (address / 256 % 256) ∷ (address % 256) ∷ rest

join_high :
    (number high : ℕ) → number < 16 → high < 16 → bit_or number (high * 16) ≡ number + high * 16
unfolding passes_below
join_high = agree_below₂ 16 16 (λ n h. bit_or n (h * 16)) (λ n h. n + h * 16) refl

masked_high : (address : ℕ) → bit_and address 0xf_0000 / 4096 ≡ address / 65536 % 16 * 16
masked_high address =
    omega
      (arith, and_256 address 0xf00, and_256 (address / 256) 0x0f, and_0x0f (address / 256 / 256))

masked_middle : (address : ℕ) → bit_and address 0xff00 / 256 ≡ address / 256 % 256
masked_middle address = omega (arith, and_256 address 0xff, and_0xff (address / 256))

store_place-placed :
    (l h x y z number address : ℕ) (rest : List ℕ)
    → store_place (l ∷ h ∷ x ∷ y ∷ z ∷ rest) number address ≡ ret (placed l h number address rest)
unfolding store_place
store_place-placed l h x y z number address rest =
    rw (and_0x0f number, masked_high address, masked_middle address, and_0xff address)
      (rw (join_high (number % 16) (address / 65536 % 16) (omega arith) (omega arith)))

low_of_mixed : (n a : ℕ) → bit_and (mixed n a) 0x0f ≡ n % 16
low_of_mixed n a = omega (arith, and_0x0f (mixed n a))

high_of_mixed : (n a : ℕ) → high_bits (mixed n a) ≡ a / 65536 % 16 * 65536
unfolding high_bits passes_below
high_of_mixed n a =
    omega (
      arith,
      agree_below 256 (λ b. bit_and b 0xf0) (λ b. b / 16 * 16) refl (mixed n a) (omega arith),
    )

none_of_mixed : (n a : ℕ) → high_bits_unbracketed (mixed n a) ≡ 0
unfolding high_bits_unbracketed passes_below
none_of_mixed n a =
    agree_below 256 (λ b. bit_and b (0xf0 * 4096)) (λ b. 0) refl (mixed n a) (omega arith)

-- The two low bytes of the address, and a third part above them.
joined :
    (b₃ b₄ high : ℕ)
    → b₃ < 256
    → b₄ < 256
    → bit_or (bit_or (bit_or 0 b₄) (b₃ * 256)) (high * 65536) ≡ b₄ + b₃ * 256 + high * 65536
joined b₃ b₄ high h₃ h₄ =
    rw (or_zero b₄, or_above b₄ b₃ h₄) (or_above₂ (b₄ + b₃ * 256) high (omega arith))

load_place-placed :
    (l h number address : ℕ) (rest : List ℕ)
    → load_place high_bits (placed l h number address rest) ≡ ret (number % 16, address % 1048576)
unfolding load_place
load_place-placed l h number address rest =
    rw (low_of_mixed number address, high_of_mixed number address)
      (rw
        (joined (address / 256 % 256) (address % 256) (address / 65536 % 16) (omega arith)
          (omega arith))
        (ground arith))

load_place_unbracketed-placed :
    (l h number address : ℕ) (rest : List ℕ)
    → load_place high_bits_unbracketed (placed l h number address rest)
      ≡ ret (number % 16, address % 65536)
unfolding load_place
load_place_unbracketed-placed l h number address rest =
    rw (low_of_mixed number address, none_of_mixed number address)
      (rw (joined (address / 256 % 256) (address % 256) 0 (omega arith) (omega arith))
        (ground arith))

-- `GetParams` after `BuildMe`, for a read request of the user memory: the request is built, and it says
-- the low four bits of the count and the low twenty of the address, whatever they were.
user_memory_read_round_trip :
    (env : Env) (a : Apdu) (ack_request priority hop_count_type : ℕ) (asap : Addr)
    (number address : ℕ)
    → (b : Apdu) × (build_read env a ack_request priority hop_count_type (some asap) number address
        ≡ ret (b, success))
      × (get_read_params b ≡ ret (some (number % 16, address % 1048576)))
      × (b.peeraddr ≡ asap)
unfolding build_read get_read_params fill
user_memory_read_round_trip env a ack_request priority hop_count_type asap number address = (
  record a {
    ack_request = ack_request;
    priority = priority;
    hop_count_type = hop_count_type;
    peeraddr = asap;
    apdu_mem = placed a.apci_l a.apci_h number address [];
    apdu_len = 5;
  },
  rw store_place-placed,
  rw load_place-placed,
  refl,
)

capped_small : (number : ℕ) → capped number ≤ 11
unfolding capped
capped_small number = ground arith

copy_memory-exact :
    (a : Apdu) (l h number address count : ℕ) (bytes : List ℕ) (room : ℕ)
    → a.apdu_mem ≡ placed l h number address bytes
    → length bytes ≡ count
    → a.apdu_len ≡ 5 + count
    → count ≤ room
    → copy_memory a count room ≡ ret (copied bytes)
unfolding copy_memory slice
copy_memory-exact a l h number address count bytes room em el en fits =
    let e : a.apdu_len - 5 ≡ count = omega arith in
    let e' : (count == count) ≡ true = ground arith in
    let e'' : ltb room count ≡ false = ground arith in
    rw (em, e, e', e'') (rw (slice_exact count bytes el))

-- `GetParams` after `BuildMe`, for a write request of the user memory. The count is cut to eleven and the
-- address to twenty bits; when they stay within the memory, and the buffer and the room for the
-- answer are large enough, then the request is built, the count and the data come back, but of the
-- address only the low sixteen bits: an address of 65536 or more comes back as another one.
pub user_memory_write_round_trip :
    (env : Env) (a : Apdu) (ack_request priority hop_count_type : ℕ) (asap : Addr)
    (number address : ℕ) (buff : List ℕ) (room : ℕ)
    → address % 1048576 + capped number ≤ max_user_memory_size
    → capped number ≤ length buff
    → capped number ≤ room
    → (b : Apdu) × (build_write env a ack_request priority hop_count_type
          (some asap)
          number
          address
          buff
        ≡ ret (b, success))
      × (get_write_params b room
          ≡ ret (some ((capped number, address % 65536), copied (take (capped number) buff))))
unfolding build_write get_write_params fill memcpy
user_memory_write_round_trip env a ack_request priority hop_count_type asap number address buff room
      inside long fits =
    let n : ℕ = capped number in
    let bytes = take n buff in
    let place : ℕ = address % 1048576 in
    let small = capped_small number in
    let el : length bytes ≡ n = length-take n buff long in
    let e : ltb max_user_memory_size (address % 1048576 + n) ≡ false = ground arith in
    let e1 : suc (suc (suc (suc (suc n)))) % 256 ≡ suc (suc (suc (suc (suc n)))) = omega arith in
    let e2 : 5 + n ≡ suc (suc (suc (suc (suc n)))) = omega arith in
    let e3 : ltb (5 + n) 5 ≡ false = ground arith in
    let e4 : n % 16 ≡ n = omega arith in
    let e5 : address % 1048576 % 65536 ≡ address % 65536 = omega arith in
    let b = record a {
      ack_request = ack_request;
      priority = priority;
      hop_count_type = hop_count_type;
      peeraddr = asap;
      apdu_mem = placed a.apci_l a.apci_h n place bytes;
      apdu_len = 5 + n;
    } in
    let loaded : load_place high_bits_unbracketed b.apdu_mem ≡ ret (n, address % 65536) =
      load_place_unbracketed-placed a.apci_l a.apci_h n place bytes ∙ rw (e4, e5) in
    (
      b,
      rw (and_0xfffff address, e, e2)
          (rw (store_place-placed, slice-take n buff long)
            (rw (
              memcpy_exact (fill env.junk 5 n) bytes (omega (arith, el, length-fill env.junk 5 n)),
              e1,
            ))),
      rw (e3, loaded)
          (rw (copy_memory-exact b a.apci_l a.apci_h n place n bytes room refl el refl fits)),
    )

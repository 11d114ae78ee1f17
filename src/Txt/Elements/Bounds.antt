-- ===== src/Txt/Elements/Bounds.antt =====
-- What `GetElemValues` of EIBCommNEO/DeviceImpl_TXT.cpp writes to the buffer of its caller.
use native.Mathlib.Nat.{mul-le-mul_right, add-mul, mul_comm}
use edifice.Base.{
  ℕ, zero, suc, ◌+◌, ◌-◌, ◌*◌, ◌%◌, ◌^◌, ◌<◌, ◌≤◌, ◌≡◌, refl, ap, ◌∙◌, arith, true, false, ltb,
  List, [], ◌∷◌, some, ret, slice, slice-take, length-take, length, take, All,
}
use edifice.Base.Bits.{IsByte}
use edifice.Pentagon.Bitstream.{ceil_divide, left_shift_bitstream}
use edifice.Pentagon.Bitstream.Value.{left_shift_bitstream_divides}
use edifice.Txt.Types.{Block, Duplex, TextDevice, find_block, get_len_in_bit, propfields_parser}
use edifice.Txt.Elements.{window, window_at, copy_out, out_len, values, get_values, get_elem_values}

slice_inside :
    (mem : List ℕ) (k n : ℕ)
    → k + n ≤ length mem
    → All IsByte mem
    → (ys : List ℕ) × (slice mem k n ≡ ret ys) × (length ys ≡ n) × All IsByte ys
unfolding slice
slice_inside mem zero zero h bytes = ([], refl, refl, tt)
slice_inside [] zero (suc n) h bytes = absurd (omega arith)
slice_inside (x ∷ mem) zero (suc n) h (byte, bytes) =
    let (ys, e, same, small) = slice_inside mem zero n (omega arith) bytes in
    (x ∷ ys, rw e refl, ap suc same, (byte, small))
slice_inside [] (suc k) n h bytes = absurd (omega arith)
slice_inside (x ∷ mem) (suc k) n h (byte, bytes) = slice_inside mem k n (omega arith) bytes

-- The window of bits that stand in a block of `n` bytes.
module _ (s m n : ℕ) (some_bits : 0 < m) (inside : s + m ≤ 8 * n) (small : n < 2 ^ 28) where
  bytes_inside : (window_at s m).start_pos_inbyte + (window_at s m).coping_len_inbyte ≤ n
  bytes_inside = omega arith

  bytes_some : 0 < (window_at s m).coping_len_inbyte
  bytes_some = omega arith

  out_len-ceil_divide : out_len (window_at s m) ≡ ceil_divide m 8
  unfolding ceil_divide
  out_len-ceil_divide = ground arith

  out_len_below : out_len (window_at s m) ≤ (window_at s m).coping_len_inbyte
  out_len_below = ground arith

shift_block :
    (tmp : List ℕ) (r : ℕ)
    → 0 < length tmp
    → r ≤ 8
    → All IsByte tmp
    → (shifted : List ℕ) × (shiftout : ℕ) × (left_shift_bitstream tmp r ≡ ret (shifted, shiftout))
      × (length shifted ≡ length tmp)
shift_block [] r h small bytes = absurd (omega arith)
shift_block (b ∷ bs) r h small (byte, bytes) =
    let (shifted, shiftout, e, same, quotient, rest) =
      left_shift_bitstream_divides b bs r small byte bytes in
    (shifted, shiftout, e, same)

-- The bytes that are copied out of a window of some bits inside the block.
copy_out_runs :
    (mem : List ℕ) (s m : ℕ)
    → 0 < m
    → s + m ≤ 8 * length mem
    → length mem < 2 ^ 28
    → All IsByte mem
    → (out : List ℕ) × (copy_out mem (window_at s m) ≡ ret out) × (length out ≡ ceil_divide m 8)
unfolding copy_out
copy_out_runs mem s m some_bits inside small bytes =
    let w = window_at s m in
    let n = w.coping_len_inbyte in
    let (tmp, copied, same, tmp_bytes) =
      slice_inside mem w.start_pos_inbyte n (bytes_inside s m (length mem) some_bits inside small)
        bytes in
    let (shifted, shiftout, shifting, kept) =
      shift_block tmp w.left_secede
        (omega (arith, same, bytes_some s m (length mem) some_bits inside small)) (omega arith)
        tmp_bytes in
    let fits : out_len w ≤ length shifted =
      omega (arith, same, kept, out_len_below s m (length mem) some_bits inside small) in
    (
      take (out_len w) shifted,
      rw (copied, shifting, slice-take (out_len w) shifted fits) refl,
      length-take (out_len w) shifted fits
          ∙ out_len-ceil_divide s m (length mem) some_bits inside small,
    )

-- A property that is there, with elements of some bits, and the memory for all of them.
pub record HasElements (d : TextDevice) (k : Duplex) (b : Block) (len : ℕ) : Type 0 where
  pub inited_ok : d.inited ≡ true
  pub found : find_block k d.blocks ≡ some b
  pub element_len : get_len_in_bit b.fields.elem_type ≡ ret len
  pub some_bits : 0 < len
  pub memory_for_all : len * b.fields.elem_count ≤ 8 * length b.value_mem
  pub of_bytes : All IsByte b.value_mem
  pub not_huge : length b.value_mem < 2 ^ 28

copy_out-window :
    (mem out : List ℕ) (start_index count len s : ℕ)
    → (start_index * len + 2 ^ 32 - len) % 2 ^ 32 ≡ s
    → copy_out mem (window_at s (len * count)) ≡ ret out
    → copy_out mem (window start_index count len) ≡ ret out
copy_out-window mem out start_index count len s first copied = rw first copied

-- For some of the elements that are there, and a buffer with room for their bits, `GetElemValues` returns
-- bytes: exactly as many as these bits take up, so never more than the buffer has room for.
pub get_elem_values_fits :
    (d : TextDevice) (k : Duplex) (b : Block) (len start_index count buff_len : ℕ)
    → HasElements d k b len
    → 0 < start_index
    → 0 < count
    → start_index + count ≤ b.fields.elem_count + 1
    → len * count ≤ 8 * buff_len
    → buff_len < 2 ^ 28
    → (out : List ℕ) × (get_elem_values d k start_index count buff_len ≡ ret (values out))
      × (length out ≡ ceil_divide (len * count) 8)
      × (length out ≤ buff_len)
unfolding get_elem_values get_values propfields_parser ceil_divide
get_elem_values_fits d k b len start_index count buff_len h from some_elements existing room small =
    let N = b.fields.elem_count in
    let least : 1 * len ≤ start_index * len = mul-le-mul_right len from in
    let some_bits : 1 * len ≤ count * len = mul-le-mul_right len some_elements in
    let most : (start_index + count) * len ≤ (N + 1) * len = mul-le-mul_right len existing in
    let s = start_index * len - len in
    let m = len * count in
    let below : start_index * len + m ≤ len * N + len = omega (
      arith,
      most,
      add-mul start_index count len,
      add-mul N 1 len,
      mul_comm len count,
      mul_comm len N,
    ) in
    let first : (start_index * len + 2 ^ 32 - len) % 2 ^ 32 ≡ s =
      omega (arith, least, below, h.memory_for_all, h.not_huge) in
    let (out, copied, size) =
      copy_out_runs b.value_mem s m (omega (arith, some_bits, h.some_bits, mul_comm len count))
        (omega (arith, least, below, h.memory_for_all)) h.not_huge h.of_bytes in
    let taken = copy_out-window b.value_mem out start_index count len s first copied in
    let there : ltb N (start_index + count - 1) ≡ false = ground (arith, existing) in
    let fits : ltb (buff_len * 8 % 2 ^ 32) m ≡ false = ground (arith, room, small) in
    (
      out,
      rw (h.inited_ok, h.found, h.element_len, there, fits, taken) refl,
      size,
      rw size (ground (arith, room)),
    )

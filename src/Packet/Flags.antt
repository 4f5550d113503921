-- ===== src/Packet/Flags.antt =====
-- The flags byte.
use trading_platform.Prelude.{
  ℕ, ◌-◌, ◌%◌, ◌^◌, ◌≤◌, ◌<◌, min, ◌≡◌, Bool, true, false, List, ◌++◌, arith, length, length-append,
  length-take, length-replicate, take, replicate, take-all, dec_le, sym, ap, ◌∙◌,
}
use trading_platform.Packet.{
  PacketHeader, is_last, packet_type, is_bid, item_count, set_flags_and_count, name_bytes,
}

-- What is set is what is read, the type and the count to three bits; and the byte holds them all.
pub set_flags_and_count_lem :
    (last : Bool) (kind : ℕ) (bid : Bool) (count : ℕ) (h : PacketHeader)
    → let h' = set_flags_and_count last kind bid count h in
      (is_last h' ≡ last)
      × (packet_type h' ≡ kind % 8)
      × (is_bid h' ≡ bid)
      × (item_count h' ≡ count % 8)
      × (h'.flags_and_count < 2 ^ 8)
unfolding set_flags_and_count is_last packet_type is_bid item_count
set_flags_and_count_lem true kind true count h =
    (ground arith, omega arith, ground arith, omega arith, omega arith)
set_flags_and_count_lem true kind false count h =
    (ground arith, omega arith, ground arith, omega arith, omega arith)
set_flags_and_count_lem false kind true count h =
    (ground arith, omega arith, ground arith, omega arith, omega arith)
set_flags_and_count_lem false kind false count h =
    (ground arith, omega arith, ground arith, omega arith, omega arith)

-- Two headers that read alike have the same flags byte.
flags_determined :
    (g h : PacketHeader)
    → g.flags_and_count < 2 ^ 8
    → h.flags_and_count < 2 ^ 8
    → is_last g ≡ is_last h
    → packet_type g ≡ packet_type h
    → is_bid g ≡ is_bid h
    → item_count g ≡ item_count h
    → g.flags_and_count ≡ h.flags_and_count
unfolding is_last packet_type is_bid item_count
flags_determined g h bg bh a b c d = ground arith

take-min : (n : ℕ) (xs : List ℕ) → take (min (length xs) n) xs ≡ take n xs
take-min n xs = elim (dec_le (length xs) n) [
  | yes h ↦
      let short : min (length xs) n ≡ length xs = omega arith in
      rw short (take-all (length xs) xs (omega arith) ∙ sym (take-all n xs h))
  | no h ↦ let long : min (length xs) n ≡ n = omega arith in rw long
]

-- A name's field has 20 bytes, the last of them zero, and starts with the first 19 of the name.
name_bytes_lem :
    (name : List ℕ)
    → (length (name_bytes name) ≡ 20)
      × (pad : ℕ) × (1 ≤ pad)
      × (name_bytes name ≡ take 19 name ++ replicate pad 0)
unfolding name_bytes
name_bytes_lem name =
    let len = min (length name) 19 in
    (
      omega (
        arith,
        length-append (take len name) (replicate (20 - len) 0),
        length-take len name,
        length-replicate {A = ℕ} (20 - len) 0,
      ),
      20 - len,
      omega arith,
      ap (λ t. t ++ replicate (20 - len) 0) (take-min 19 name),
    )

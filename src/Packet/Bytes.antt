-- ===== src/Packet/Bytes.antt =====
-- Byte orders, and the layout of a packet.
use trading_platform.Prelude.{
  ℕ, zero, suc, ◌+◌, ◌*◌, ◌/◌, ◌%◌, ◌^◌, ◌<◌, ◌≡◌, refl, sym, ap, ap₂, ◌∙◌, List, [], ◌∷◌, ◌++◌,
  append_assoc, append-nil, arith, length, length-append,
}
use trading_platform.Packet.{
  le_bytes, le_value, rev, swap_bytes, PacketHeader, to_network_order, BinaryUdpPacket,
  header_bytes, to_bytes,
}

length-rev : (bs : List ℕ) → length (rev bs) ≡ length bs
length-rev [] = refl
length-rev (b ∷ bs) = omega (arith, length-append (rev bs) (b ∷ []), length-rev bs)

rev-append : (bs cs : List ℕ) → rev (bs ++ cs) ≡ rev cs ++ rev bs
rev-append [] cs = sym (append-nil (rev cs))
rev-append (b ∷ bs) cs = rw (rev-append bs cs, append_assoc)

rev-rev : (bs : List ℕ) → rev (rev bs) ≡ bs
rev-rev [] = refl
rev-rev (b ∷ bs) = rw (rev-append (rev bs) (b ∷ []), rev-rev bs)

length-le_bytes : (k n : ℕ) → length (le_bytes k n) ≡ k
unfolding le_bytes
length-le_bytes zero n = refl
length-le_bytes (suc k) n = ap suc (length-le_bytes k (n / 2 ^ 8))

abbrev AreBytes : List ℕ → Type 0
AreBytes [] = Unit {0}
AreBytes (b ∷ bs) = (b < 2 ^ 8) × AreBytes bs

le_bytes-AreBytes : (k n : ℕ) → AreBytes (le_bytes k n)
unfolding le_bytes
le_bytes-AreBytes zero n = tt
le_bytes-AreBytes (suc k) n = (omega arith, le_bytes-AreBytes k (n / 2 ^ 8))

AreBytes-append : (bs cs : List ℕ) → AreBytes bs → AreBytes cs → AreBytes (bs ++ cs)
AreBytes-append [] cs h k = k
AreBytes-append (b ∷ bs) cs h k = (h.0, AreBytes-append bs cs h.1 k)

rev-AreBytes : (bs : List ℕ) → AreBytes bs → AreBytes (rev bs)
rev-AreBytes [] h = tt
rev-AreBytes (b ∷ bs) h = AreBytes-append (rev bs) (b ∷ []) (rev-AreBytes bs h.1) (h.0, tt)

le_bytes-le_value :
    (k : ℕ) (bs : List ℕ) → length bs ≡ k → AreBytes bs → le_bytes k (le_value bs) ≡ bs
unfolding le_bytes le_value
le_bytes-le_value zero [] e h = refl
le_bytes-le_value zero (b ∷ bs) e h = absurd (omega arith)
le_bytes-le_value (suc k) [] e h = absurd (omega arith)
le_bytes-le_value (suc k) (b ∷ bs) e h =
    let low : (b + 2 ^ 8 * le_value bs) % 2 ^ 8 ≡ b = omega (arith, h.0) in
    let high : (b + 2 ^ 8 * le_value bs) / 2 ^ 8 ≡ le_value bs = omega (arith, h.0) in
    rw (low, high, le_bytes-le_value k bs (omega arith) h.1)

-- A number of 8 bytes, from its bytes.
le_value-le_bytes : (n : ℕ) → n < 2 ^ 64 → le_value (le_bytes 8 n) ≡ n
unfolding le_value le_bytes
le_value-le_bytes n h = omega arith

-- In memory a swapped number has its bytes the other way round: from the high one down.
le_bytes-swap : (n : ℕ) → le_bytes 8 (swap_bytes n) ≡ rev (le_bytes 8 n)
unfolding swap_bytes
le_bytes-swap n =
    le_bytes-le_value 8 (rev (le_bytes 8 n)) (length-rev (le_bytes 8 n) ∙ length-le_bytes 8 n)
      (rev-AreBytes (le_bytes 8 n) (le_bytes-AreBytes 8 n))

swap-unfold : (n : ℕ) → swap_bytes n ≡ le_value (rev (le_bytes 8 n))
unfolding swap_bytes
swap-unfold n = refl

swap-swap : (n : ℕ) → n < 2 ^ 64 → swap_bytes (swap_bytes n) ≡ n
swap-swap n h =
    swap-unfold (swap_bytes n)
    ∙ (ap (λ bs. le_value (rev bs)) (le_bytes-swap n)
        ∙ (ap le_value (rev-rev (le_bytes 8 n)) ∙ le_value-le_bytes n h))

-- Two u64 timestamps.
pub record IsHeader (h : PacketHeader) : Type 0 where
  pub exchange_time : h.exchange_timestamp < 2 ^ 64
  pub local_time : h.local_timestamp < 2 ^ 64
  pub symbol_size : length h.symbol ≡ 20
  pub exchange_size : length h.exchange ≡ 20

-- The header's bytes, given those of its timestamps.
abbrev layout : PacketHeader → List ℕ → List ℕ → List ℕ
layout h exchange_time local_time =
    h.protocol_version % 2 ^ 8
    ∷ (exchange_time ++ (local_time ++ (h.flags_and_count % 2 ^ 8 ∷ (h.symbol ++ h.exchange))))

header_bytes-network :
    (h : PacketHeader)
    → header_bytes (to_network_order h)
      ≡ layout h (rev (le_bytes 8 h.exchange_timestamp)) (rev (le_bytes 8 h.local_timestamp))
unfolding to_network_order header_bytes
header_bytes-network h =
    ap₂ (layout h) (le_bytes-swap h.exchange_timestamp) (le_bytes-swap h.local_timestamp)

length-layout :
    (h : PacketHeader) (e l : List ℕ)
    → IsHeader h
    → length e ≡ 8
    → length l ≡ 8
    → length (layout h e l) ≡ 58
length-layout h e l v p q =
    let names = h.symbol ++ h.exchange in
    omega (
      arith,
      v.symbol_size,
      v.exchange_size,
      length-append h.symbol h.exchange,
      length-append l (h.flags_and_count % 2 ^ 8 ∷ names),
      length-append e (l ++ h.flags_and_count % 2 ^ 8 ∷ names),
    )

length-rev_le : (n : ℕ) → length (rev (le_bytes 8 n)) ≡ 8
length-rev_le n = length-rev (le_bytes 8 n) ∙ length-le_bytes 8 n

-- A packet goes out as 58 bytes of header and its payload: the version, both timestamps with
-- their bytes from the high one down, the flags, the symbol and the exchange.
pub to_bytes_lem :
    (p : BinaryUdpPacket)
    → IsHeader p.header
    → let h = p.header in
      let bytes = (to_bytes p).1 in
      (length bytes ≡ 58 + length p.payload)
      × (bytes
          ≡ (h.protocol_version % 2 ^ 8
              ∷ (rev (le_bytes 8 h.exchange_timestamp)
                  ++ (rev (le_bytes 8 h.local_timestamp)
                      ++ (h.flags_and_count % 2 ^ 8 ∷ (h.symbol ++ h.exchange)))))
            ++ p.payload)
unfolding to_bytes
to_bytes_lem p v =
    let h = p.header in
    let e = rev (le_bytes 8 h.exchange_timestamp) in
    let l = rev (le_bytes 8 h.local_timestamp) in
    let same : header_bytes (to_network_order h) ++ p.payload ≡ layout h e l ++ p.payload =
      ap (λ bs. bs ++ p.payload) (header_bytes-network h) in
    (
      ap length same
          ∙ (length-append (layout h e l) p.payload
              ∙ ap (λ n. n + length p.payload)
                  (length-layout h e l v (length-rev_le h.exchange_timestamp)
                    (length-rev_le h.local_timestamp))),
      same,
    )

-- The receiver's change of byte order gives back the header that the sender had.
from_network-to_network :
    (h : PacketHeader) → IsHeader h → to_network_order (to_network_order h) ≡ h
unfolding to_network_order
from_network-to_network h v =
    ap₂ (λ (e l : ℕ). record h { exchange_timestamp = e; local_timestamp = l })
      (swap-swap h.exchange_timestamp v.exchange_time) (swap-swap h.local_timestamp v.local_time)

-- ===== src/UdpSenders/Chunks.antt =====
-- Data that are sent in chunks arrive whole, in packets of bounded size.
use trading_platform.Prelude.{
  ℕ, zero, suc, ◌+◌, ◌-◌, ◌/◌, ◌%◌, ◌≤◌, ◌<◌, ◌≡◌, refl, ◌∙◌, ap, ap₂, true, false, some, List, [],
  ◌∷◌, ◌++◌, append_assoc, arith, ◌==◌, ltb, leb, if◌then◌else◌, length, take, drop, length-append,
  length-take, length-drop, take-append-drop,
}
use trading_platform.Prelude.Decimal.{decimal}
use trading_platform.UdpSenders.{
  chunk_header, chunks_from, chunks, with_headers, max_udp_size, buffered_chunk_size, send,
  send_all, send_chunked, ordered_chunk_size, send_packet,
}

abbrev pub concat : List (List ℕ) → List ℕ
concat [] = []
concat (c ∷ cs) = c ++ concat cs

abbrev pub AllWithin : ℕ → List (List ℕ) → Type 0
AllWithin n [] = Unit
AllWithin n (c ∷ cs) = (length c ≤ n) × AllWithin n cs

chunks_from-concat :
    (fuel size : ℕ) (bytes : List ℕ)
    → 1 ≤ size
    → length bytes ≤ fuel
    → concat (chunks_from fuel size bytes) ≡ bytes
unfolding chunks_from
chunks_from-concat zero size [] h k = refl
chunks_from-concat zero size (b ∷ bytes) h k = absurd (omega arith)
chunks_from-concat (suc fuel) size [] h k = refl
chunks_from-concat (suc fuel) size (b ∷ bytes) h k =
    let l = length-drop size (b ∷ bytes) in
    ap (λ r. take size (b ∷ bytes) ++ r)
      (chunks_from-concat fuel size (drop size (b ∷ bytes)) h (omega (arith, l)))
    ∙ take-append-drop size (b ∷ bytes)

chunks_from-AllWithin :
    (fuel size : ℕ) (bytes : List ℕ) → AllWithin size (chunks_from fuel size bytes)
unfolding chunks_from
chunks_from-AllWithin zero size bytes = tt
chunks_from-AllWithin (suc fuel) size [] = tt
chunks_from-AllWithin (suc fuel) size (b ∷ bytes) = (
  omega (arith, length-take size (b ∷ bytes)),
  chunks_from-AllWithin fuel size (drop size (b ∷ bytes)),
)

AllWithin-weaken : (m n : ℕ) (cs : List (List ℕ)) → m ≤ n → AllWithin m cs → AllWithin n cs
AllWithin-weaken m n [] h a = tt
AllWithin-weaken m n (c ∷ cs) h (k, a) = (omega arith, AllWithin-weaken m n cs h a)

length-decimal : (most n : ℕ) → length (decimal most n) ≤ suc most
unfolding decimal
length-decimal zero n = omega arith
length-decimal (suc most) n =
    let l = length-append (decimal most (n / 10)) ((48 + n % 10) ∷ []) in
    ground (arith, l, length-decimal most (n / 10))

length-chunk_header : (i total : ℕ) → length (chunk_header i total) ≤ 48
unfolding chunk_header
length-chunk_header i total =
    let a = length-append (decimal 19 i) (124 ∷ (decimal 19 total ++ 124 ∷ [])) in
    let b = length-append (decimal 19 total) (124 ∷ []) in
    omega (arith, a, b, length-decimal 19 i, length-decimal 19 total)

with_headers-AllWithin :
    (i total n : ℕ) (cs : List (List ℕ))
    → AllWithin n cs
    → AllWithin (n + 48) (with_headers i total cs)
unfolding with_headers
with_headers-AllWithin i total n [] a = tt
with_headers-AllWithin i total n (c ∷ cs) (h, a) =
    let l = length-append (chunk_header i total) c in
    (omega (arith, l, length-chunk_header i total), with_headers-AllWithin (i + 1) total n cs a)

-- What follows the first bar of a text.
abbrev pub after_bar : List ℕ → List ℕ
after_bar [] = []
after_bar (c ∷ cs) = if c == 124 then cs else after_bar cs

-- The data of received packets: what follows the third bar of each.
abbrev pub reassemble : List (List ℕ) → List ℕ
reassemble [] = []
reassemble (p ∷ ps) = after_bar (after_bar (after_bar p)) ++ reassemble ps

-- No byte is a bar, nor above it.
abbrev NoBar : List ℕ → Type 0
NoBar [] = Unit
NoBar (c ∷ cs) = (c < 124) × NoBar cs

NoBar-append : (xs ys : List ℕ) → NoBar xs → NoBar ys → NoBar (xs ++ ys)
NoBar-append [] ys a b = b
NoBar-append (x ∷ xs) ys (h, a) b = (h, NoBar-append xs ys a b)

decimal-NoBar : (most n : ℕ) → NoBar (decimal most n)
unfolding decimal
decimal-NoBar zero n = (omega arith, tt)
decimal-NoBar (suc most) n =
    let a =
      NoBar-append (decimal most (n / 10)) ((48 + n % 10) ∷ []) (decimal-NoBar most (n / 10))
        (omega arith, tt) in
    ground (arith, a)

after_bar-NoBar : (xs cs : List ℕ) → NoBar xs → after_bar (xs ++ 124 ∷ cs) ≡ cs
after_bar-NoBar [] cs a = refl
after_bar-NoBar (x ∷ xs) cs (h, a) = ground (arith, h, after_bar-NoBar xs cs a)

after_bar-header :
    (i total : ℕ) (cs : List ℕ)
    → after_bar (after_bar (after_bar (chunk_header i total ++ cs))) ≡ cs
unfolding chunk_header
after_bar-header i total cs =
    let x = decimal 19 i in
    let y = decimal 19 total in
    let e : (x ++ (124 ∷ (y ++ 124 ∷ []))) ++ cs ≡ x ++ 124 ∷ (y ++ 124 ∷ cs) =
      append_assoc x (124 ∷ (y ++ 124 ∷ [])) cs
      ∙ ap (λ r. x ++ 124 ∷ r) (append_assoc y (124 ∷ []) cs) in
    ap (λ r. after_bar (after_bar r)) e
    ∙ ap after_bar (after_bar-NoBar x (y ++ 124 ∷ cs) (decimal-NoBar 19 i))
    ∙ after_bar-NoBar y cs (decimal-NoBar 19 total)

reassemble-with_headers :
    (i total : ℕ) (cs : List (List ℕ)) → reassemble (with_headers i total cs) ≡ concat cs
unfolding with_headers
reassemble-with_headers i total [] = refl
reassemble-with_headers i total (c ∷ cs) =
    ap₂ ◌++◌ (after_bar-header i total c) (reassemble-with_headers (i + 1) total cs)

send_all-within :
    (n : ℕ) (ps : List (List ℕ)) → n ≤ max_udp_size → AllWithin n ps → send_all ps ≡ some ps
unfolding send_all send
send_all-within n [] h a = refl
send_all-within n (p ∷ ps) h (k, a) = ground (arith, h, k, send_all-within n ps h a)

-- More than one chunk of data is sent without an error in packets of at most 1248 bytes, within the
-- 1400 that do not fragment, and what follows the headers is the data.
pub send_chunked_lem :
    (bytes : List ℕ)
    → buffered_chunk_size < length bytes
    → (packets : List (List ℕ)) × (send_chunked bytes ≡ some packets)
      × AllWithin 1248 packets
      × (reassemble packets ≡ bytes)
unfolding send_chunked chunks
send_chunked_lem bytes h =
    let total : ℕ = (length bytes + buffered_chunk_size - 1) / buffered_chunk_size in
    let cs : List (List ℕ) = chunks_from (length bytes) buffered_chunk_size bytes in
    let w =
      with_headers-AllWithin 1 total buffered_chunk_size cs
        (chunks_from-AllWithin (length bytes) buffered_chunk_size bytes) in
    let long : leb (length bytes) buffered_chunk_size ≡ false = ground (arith, h) in
    (
      with_headers 1 total cs,
      rw long (send_all-within 1248 (with_headers 1 total cs) (omega arith) w),
      w,
      reassemble-with_headers 1 total cs
          ∙ chunks_from-concat (length bytes) buffered_chunk_size bytes (omega arith) (omega arith),
    )

-- Data beyond the size of a UDP packet are sent in packets within it, and what follows the headers is
-- the data.
send_packet_lem :
    (bytes : List ℕ)
    → max_udp_size < length bytes
    → AllWithin max_udp_size (send_packet bytes) × (reassemble (send_packet bytes) ≡ bytes)
unfolding send_packet chunks
send_packet_lem bytes h =
    let cs : List (List ℕ) = chunks_from (length bytes) ordered_chunk_size bytes in
    let w =
      with_headers-AllWithin 1 (length cs) ordered_chunk_size cs
        (chunks_from-AllWithin (length bytes) ordered_chunk_size bytes) in
    let long : ltb max_udp_size (length bytes) ≡ true = ground (arith, h) in
    rw long (
      AllWithin-weaken 60048 max_udp_size (with_headers 1 (length cs) cs) (omega arith) w,
      reassemble-with_headers 1 (length cs) cs
          ∙ chunks_from-concat (length bytes) ordered_chunk_size bytes (omega arith) (omega arith),
    )

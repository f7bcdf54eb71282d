-- ===== src/Wol/Packet.antt =====
-- The bytes that `buildMagicPacket` (src/Wol.cpp) writes.
use esp32_sequencer.Base.{
  ℕ, zero, suc, ◌+◌, ◌-◌, ◌*◌, ◌%◌, ◌≤◌, ◌<◌, ◌≡◌, ap, ◌∙◌, ◌&&◌, ltb, leb, if◌then◌else◌, arith,
  Bool-cases, inl, inr,
}
use esp32_sequencer.Wol.{store, fill, copy, repeat, build_magic_packet}

fill_at : (n k : ℕ) (out : ℕ → ℕ) → fill n out k ≡ (if ltb k n then 255 else out k)
unfolding fill store
fill_at zero k out = ground arith
fill_at (suc n) k out = ground (arith, fill_at n k out)

at_index : (mac : ℕ → ℕ) (start n k : ℕ) → start + n ≡ k → mac n ≡ mac (k - start)
at_index mac start n k h = ap mac (omega arith)

at_offset :
    (mac : ℕ → ℕ) (n k : ℕ)
    → 6 + n * 6 ≤ k
    → k < 6 + n * 6 + 6
    → mac (k - (6 + n * 6)) ≡ mac ((k - 6) % 6)
at_offset mac n k h h' = ap mac (omega arith)

copy_at :
    (mac : ℕ → ℕ) (rep n k : ℕ) (out : ℕ → ℕ)
    → copy mac rep n out k
      ≡ (if leb (6 + rep * 6) k && ltb k (6 + rep * 6 + n) then mac (k - (6 + rep * 6)) else out k)
unfolding copy store
copy_at mac rep zero k out = ground arith
copy_at mac rep (suc n) k out =
    ground (arith, copy_at mac rep n k out, at_index mac (6 + rep * 6) n k)

-- One more repetition makes the range longer by six.
widen :
    (m m' k x y o : ℕ)
    → 6 ≤ m
    → m' ≡ m + 6
    → (m ≤ k → k < m + 6 → x ≡ y)
    → (if leb m k && ltb k (m + 6) then x else if leb 6 k && ltb k m then y else o)
      ≡ (if leb 6 k && ltb k m' then y else o)
widen m m' k x y o low e same = elim (Bool-cases (leb m k)) [
  | inl above ↦ rw above (ground (arith, same))
  | inr below ↦ rw below (ground arith)
]

repeat_at :
    (mac : ℕ → ℕ) (n k : ℕ) (out : ℕ → ℕ)
    → repeat mac n out k ≡ (if leb 6 k && ltb k (6 + n * 6) then mac ((k - 6) % 6) else out k)
unfolding repeat
repeat_at mac zero k out = ground arith
repeat_at mac (suc n) k out =
    copy_at mac n 6 k (repeat mac n out)
    ∙ ap (λ z. if leb (6 + n * 6) k && ltb k (6 + n * 6 + 6) then mac (k - (6 + n * 6)) else z)
        (repeat_at mac n k out)
    ∙ widen (6 + n * 6) (6 + suc n * 6) k _ _ (out k) (omega arith) (omega arith)
        (at_offset mac n k)

-- A magic packet is six bytes 255 and then the address sixteen times; the bytes behind its 102 are
-- left as they were.
pub build_magic_packet_at :
    (mac out : ℕ → ℕ) (k : ℕ)
    → build_magic_packet mac out k
      ≡ (if ltb k 6 then 255 else if ltb k 102 then mac ((k - 6) % 6) else out k)
unfolding build_magic_packet
build_magic_packet_at mac out k = ground (arith, repeat_at mac 16 k (fill 6 out), fill_at 6 k out)

-- ===== src/Calendar/Address/Ranges.antt =====
-- The blocked IPv4 addresses as ranges of 32-bit numbers.
use intern_logenhelfer_de.Base.{
  ℕ, ◌+◌, ◌*◌, ◌≡◌, ◌≤◌, ◌<◌, refl, Bool, ◌&&◌, ◌||◌, ltb, leb, arith, ◌==◌, nat_eq,
}
use intern_logenhelfer_de.Calendar.Address.{IPv4Octets, is_ipv4_blocked}

-- The address as a number.
abbrev pub value : IPv4Octets → ℕ
value o = ((o.a * 256 + o.b) * 256 + o.c) * 256 + o.d

abbrev pub in_range : ℕ → ℕ → ℕ → Bool
in_range low high n = leb low n && ltb n high

-- 127.0.0.0/8, 10.0.0.0/8, 172.16.0.0/12, 192.168.0.0/16, 169.254.0.0/16 and 0.0.0.0/32
abbrev pub in_blocked_ranges : ℕ → Bool
in_blocked_ranges n =
    in_range 2_130_706_432 2_147_483_648 n
    || (in_range 167_772_160 184_549_376 n
        || (in_range 2_886_729_728 2_887_778_304 n
            || (in_range 3_232_235_520 3_232_301_056 n
                || (in_range 2_851_995_648 2_852_061_184 n || n == 0))))

-- One octet decides.
by_octet :
    (n a r k : ℕ)
    → n ≡ a * 16_777_216 + r
    → r < 16_777_216
    → (a == k) ≡ in_range (k * 16_777_216) (k * 16_777_216 + 16_777_216) n
by_octet n a r k e hr = ground arith

-- Two octets decide, the second from `low` to `high`.
by_two :
    (n a b r k low high : ℕ)
    → n ≡ a * 16_777_216 + b * 65_536 + r
    → b < 256
    → r < 65_536
    → low ≤ high
    → high < 256
    → (a == k && (leb low b && leb b high))
      ≡ in_range (k * 16_777_216 + low * 65_536) (k * 16_777_216 + high * 65_536 + 65_536) n
by_two n a b r k low high e hb hr order hh = ground arith

one_octet : (b k : ℕ) → (b == k) ≡ (leb k b && leb b k)
one_octet b k = ground arith

unspecified :
    (n a b c d : ℕ)
    → n ≡ a * 16_777_216 + b * 65_536 + (c * 256 + d)
    → (a == 0 && (b == 0 && (c == 0 && d == 0))) ≡ (n == 0)
unspecified n a b c d e = ground arith

-- Four octets are blocked exactly when the address that they write lies in one of the six ranges.
pub is_ipv4_blocked_ranges :
    (o : IPv4Octets)
    → o.a < 256
    → o.b < 256
    → o.c < 256
    → o.d < 256
    → is_ipv4_blocked o ≡ in_blocked_ranges (value o)
unfolding is_ipv4_blocked
is_ipv4_blocked_ranges o ha hb hc hd =
    let n = value o in
    let r = o.c * 256 + o.d in
    let split : n ≡ o.a * 16_777_216 + o.b * 65_536 + r = omega arith in
    let low : r < 65_536 = omega (arith, hc, hd) in
    let rest : o.b * 65_536 + r < 16_777_216 = omega (arith, hb, low) in
    let whole : n ≡ o.a * 16_777_216 + (o.b * 65_536 + r) = omega arith in
    rw
      (
        by_octet n o.a (o.b * 65_536 + r) 127 whole rest,
        by_octet n o.a (o.b * 65_536 + r) 10 whole rest,
        by_two n o.a o.b r 172 16 31 split hb low (omega arith) (omega arith),
        one_octet o.b 168,
        by_two n o.a o.b r 192 168 168 split hb low (omega arith) (omega arith),
        one_octet o.b 254,
        by_two n o.a o.b r 169 254 254 split hb low (omega arith) (omega arith),
        unspecified n o.a o.b o.c o.d split,
      )
      refl

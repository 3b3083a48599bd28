-- ===== src/CApi/FwVersion/Laws.antt =====
-- What a version that was written reads as.
use py_de.Base.{
  ℕ, ◌≡◌, Option, none, some, List, ◌++◌, ok, and_then-eq-ok, ok-injective, length, take-append,
  drop-append,
}
use py_de.PyNum.{ℤ, Num, nat}
use py_de.Struct.{big}
use py_de.Struct.RoundTrip.{unpack-pack, length-pack}
use py_de.CApi.Fixed.{f8_1_7_decode, f8_1_7_of, p0, over}
use py_de.CApi.FwVersion.{
  FwVersion, Versions, format, values, from_wire_bytes, as_wire_bytes, versions_from_wire_bytes,
  versions_as_wire_bytes,
}

-- What the DE1's fields hold of a version, `r` being the encoded release.
abbrev pub quantised : FwVersion → ℤ → Option Num → FwVersion
quantised s r t = record {
  arrival_time = t;
  api_version = some (over (p0 s.api_version) 1);
  release = some (f8_1_7_decode (nat r));
  commits = some (over (p0 s.commits) 1);
  changes = some (over (p0 s.changes) 1);
  ble_sha = some (over (p0 s.ble_sha) 1);
}

pub FwVersion-round_trip :
    (s s' : FwVersion) (bs : List ℕ) (t : Option Num)
    → as_wire_bytes s ≡ ok bs
    → (r : ℤ) × (f8_1_7_of s.release ≡ ok r) × (from_wire_bytes bs t s' ≡ (quantised s r t, none))
unfolding as_wire_bytes from_wire_bytes
FwVersion-round_trip s s' bs t e =
    let (r, er, ep) = and_then-eq-ok (f8_1_7_of s.release) _ e in
    (r, er, rw (unpack-pack big format (values s r) bs ep))

length-as_wire_bytes : (s : FwVersion) (bs : List ℕ) → as_wire_bytes s ≡ ok bs → length bs ≡ 9
unfolding as_wire_bytes
length-as_wire_bytes s bs e =
    let (r, er, ep) = and_then-eq-ok (f8_1_7_of s.release) _ e in
    length-pack big format (values s r) bs ep

-- Two versions that were written one after the other are read back, each up to the resolution of
-- its fields, into whatever the object held before.
pub Versions-round_trip :
    (s s' : Versions) (bs : List ℕ) (t : Option Num)
    → versions_as_wire_bytes s ≡ ok bs
    → (r q : ℤ) × (f8_1_7_of s.ble_version.release ≡ ok r)
      × (f8_1_7_of s.lv_version.release ≡ ok q)
      × (versions_from_wire_bytes bs t s' ≡ (
        record {
          arrival_time = t;
          ble_version = quantised s.ble_version r t;
          lv_version = quantised s.lv_version q t;
        },
        none,
      ))
unfolding versions_as_wire_bytes versions_from_wire_bytes
Versions-round_trip s s' bs t e =
    let (xs, ex, e1) = and_then-eq-ok (as_wire_bytes s.ble_version) _ e in
    let (ys, ey, e2) = and_then-eq-ok (as_wire_bytes s.lv_version) (λ y. ok (xs ++ y)) e1 in
    let (r, er, ebr) = FwVersion-round_trip s.ble_version s'.ble_version xs t ex in
    let (q, eq, elq) = FwVersion-round_trip s.lv_version s'.lv_version ys t ey in
    let n = length-as_wire_bytes s.ble_version xs ex in
    (
      r,
      q,
      er,
      eq,
      rw (← ok-injective e2) (rw (take-append 9 xs ys n, drop-append 9 xs ys n) (rw (ebr, elq))),
    )

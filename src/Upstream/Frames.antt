-- ===== src/Upstream/Frames.antt =====
-- The frames of upstream/direct_dial.go: what is written to a Trojan, VLESS or VMess proxy. The hashes,
-- the cipher and the random bytes are parameters; a byte is a number.
use proxydeck.Prelude.{ℕ, ◌/◌, ◌%◌, ◌^◌, List, [], ◌∷◌, ◌++◌}
use proxydeck.Errors.{Result, ok, err}
use proxydeck.Strings.{Text, lit}

abbrev pub Bytes : Type 0
Bytes = List ℕ

pub record Crypto : Type 0 where
  -- SHA-224 in hexadecimal digits; MD5; AES in CFB mode, of a plain text, a key and an IV
  pub sha224_hex : Text → Bytes
  pub md5_sum : Bytes → Bytes
  pub cfb_encrypt : Bytes → Bytes → Bytes → Result Bytes
  pub cfb_decrypt : Bytes → Bytes → Bytes → Result Bytes
  -- the 32 bits of FNV-1a
  pub fnv1a : Bytes → ℕ

unfoldable pub build_trojan_connect_frame : Crypto → Text → Bytes → Bytes
build_trojan_connect_frame c secret addr =
    c.sha224_hex secret ++ (13 ∷ 10 ∷ 1 ∷ (addr ++ (13 ∷ 10 ∷ [])))

unfoldable pub build_vless_connect_frame : Bytes → Bytes → Bytes
build_vless_connect_frame user_id addr = 1 ∷ (user_id ++ (0 ∷ 1 ∷ addr))

-- The bytes of a number, the highest first.
unfoldable pub bytes32 : ℕ → Bytes
bytes32 n = (n / 2 ^ 24 % 256) ∷ (n / 2 ^ 16 % 256) ∷ (n / 2 ^ 8 % 256) ∷ (n % 256) ∷ []

unfoldable pub bytes64 : ℕ → Bytes
unfolding bytes32
bytes64 n = bytes32 (n / 2 ^ 32) ++ bytes32 n

-- `fnv1a32`
unfoldable pub fnv1a32 : Crypto → Bytes → Bytes
unfolding bytes32
fnv1a32 c bytes = bytes32 (c.fnv1a bytes)

-- The digest of the user's id and the seconds since 1970.
unfoldable pub build_vmess_auth_info : Crypto → Bytes → ℕ → Bytes
unfolding bytes64
build_vmess_auth_info c user_id ts = c.md5_sum (user_id ++ bytes64 ts)

-- The random bytes of a request: the key, the IV and the byte of the answer.
pub record Nonces : Type 0 where
  pub key : Bytes
  pub iv : Bytes
  pub answer : ℕ

unfoldable pub vmess_body : Crypto → Nonces → Bytes → Bytes
unfolding fnv1a32
vmess_body c r addr =
    let plain = 1 ∷ (r.iv ++ (r.key ++ (r.answer ∷ 0 ∷ 0 ∷ 0 ∷ 0 ∷ 6 ∷ 0 ∷ addr))) in
    plain ++ fnv1a32 c plain

-- What is written, and the key and the IV of the answer.
pub record VmessFrame : Type 0 where
  pub packet : Bytes
  pub key : Bytes
  pub iv : Bytes

abbrev pub vmess_packet : Crypto → Nonces → Bytes → Result Bytes → Result VmessFrame
vmess_packet c r info (err e) = err e
vmess_packet c r info (ok body) =
    ok (record { packet = info ++ body; key = c.md5_sum r.key; iv = c.md5_sum r.iv })

-- `buildVMessConnectFrame` behind the random bytes
unfoldable pub build_vmess_connect_frame : Crypto → Nonces → ℕ → Bytes → Bytes → Result VmessFrame
unfolding vmess_body build_vmess_auth_info
build_vmess_connect_frame c r ts user_id addr =
    let info = build_vmess_auth_info c user_id ts in
    vmess_packet c r info (
      c.cfb_encrypt (vmess_body c r addr)
        (c.md5_sum (user_id ++ lit "c48619fe-8f02-49e0-b9e9-edf763e17e21"))
        (c.md5_sum (info ++ info)))

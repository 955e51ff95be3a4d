-- ===== src/Protocol/Mesh/Roles.antt =====
-- Mesh-role frames share the 7f framing with Modbus, and are never mistaken for it.
use foxess_local_gateway.Prelude.{
  ℕ, suc, ◌+◌, ◌≤◌, ◌≡◌, refl, arith, List, [], ◌∷◌, ◌++◌, length, length-append, take, true, false,
  get_or, leb, ltb, ◌&&◌, ◌||◌, ◌=b◌, Bool-cases, inl, inr,
}
use foxess_local_gateway.Bytes.{slice, all_bytes, slice-part}
use foxess_local_gateway.Protocol.Frame.{Frame}
use foxess_local_gateway.Protocol.Extract.{marker_7f}
use foxess_local_gateway.Protocol.Modbus.{
  byte_at, is_modbus_command, is_modbus_read_response, is_modbus_read_exception,
  is_modbus_write_success_response,
}
use foxess_local_gateway.Protocol.Mesh.{
  is_mesh_root_frame, is_mesh_follower_frame, mesh_peer_serial,
}

role_byte :
    (payload : List ℕ) (b : ℕ)
    → (take 4 payload =b 0x01 ∷ 0x05 ∷ 0x01 ∷ b ∷ []) ≡ true
    → (get_or payload 1 0 ≡ 5) × (get_or payload 3 0 ≡ b) × (4 ≤ length payload)
role_byte (p0 ∷ p1 ∷ p2 ∷ p3 ∷ rest) b h = (ground arith, ground arith, omega arith)
role_byte _ b h = absurd (ground arith)

root_byte :
    (f : Frame)
    → is_mesh_root_frame f ≡ true
    → (byte_at f 1 ≡ 5) × (byte_at f 3 ≡ 1) × (4 ≤ length f.payload)
unfolding is_mesh_root_frame
root_byte f h = role_byte f.payload 1 (ground arith)

follower_byte :
    (f : Frame)
    → is_mesh_follower_frame f ≡ true
    → (byte_at f 1 ≡ 5) × (byte_at f 3 ≡ 2) × (4 ≤ length f.payload)
unfolding is_mesh_follower_frame
follower_byte f h = role_byte f.payload 2 (ground arith)

-- With function byte 5 nothing is Modbus.
five_not_modbus :
    (f : Frame)
    → byte_at f 1 ≡ 5
    → (is_modbus_command f ≡ false)
      × (is_modbus_read_response f ≡ false)
      × (is_modbus_read_exception f ≡ false)
      × (is_modbus_write_success_response f ≡ false)
unfolding is_modbus_read_response is_modbus_read_exception is_modbus_write_success_response
five_not_modbus f h = (ground arith, ground arith, ground arith, ground arith)

not_follower : (f : Frame) → byte_at f 3 ≡ 1 → is_mesh_follower_frame f ≡ false
not_follower f h = elim (Bool-cases (is_mesh_follower_frame f)) [
  | inl e ↦ let (_, role, _) = follower_byte f e in absurd (omega arith)
  | inr e ↦ e
]

-- A frame that role_declared a mesh role, root or follower, is no Modbus command, read response, read
-- exception or write response; and it does not declare both roles.
pub mesh_not_modbus :
    (f : Frame)
    → (is_mesh_root_frame f || is_mesh_follower_frame f) ≡ true
    → (is_modbus_command f ≡ false)
      × (is_modbus_read_response f ≡ false)
      × (is_modbus_read_exception f ≡ false)
      × (is_modbus_write_success_response f ≡ false)
      × ((is_mesh_root_frame f && is_mesh_follower_frame f) ≡ false)
mesh_not_modbus f h = elim (Bool-cases (is_mesh_root_frame f)) [
  | inl root ↦
      let (fn, role, _) = root_byte f root in
      let (a, b, c, d) = five_not_modbus f fn in (a, b, c, d, rw root (not_follower f role))
  | inr other ↦
      let (fn, role, _) = follower_byte f (rw other at h) in
      let (a, b, c, d) = five_not_modbus f fn in (a, b, c, d, rw other)
]

-- The root's serial is read from a follower frame: a well-formed one, whose serial has 1 to 32 ASCII
-- characters, gives exactly that serial, whatever follows it.
pub mesh_peer_serial_read :
    (f : Frame) (serial rest : List ℕ)
    → f.start ≡ marker_7f
    → f.payload ≡ 0x01 ∷ 0x05 ∷ 0x01 ∷ 0x02 ∷ length serial ∷ (serial ++ rest)
    → 1 ≤ length serial
    → length serial ≤ 32
    → all_bytes (λ b. ltb b 128) serial ≡ true
    → mesh_peer_serial f ≡ serial
unfolding mesh_peer_serial
mesh_peer_serial_read f serial rest s p lo hi ascii =
    let part : slice 5 (5 + length serial)
          (0x01 ∷ 0x05 ∷ 0x01 ∷ 0x02 ∷ length serial ∷ (serial ++ rest))
        ≡ serial =
      slice-part 5 _ (0x01 ∷ 0x05 ∷ 0x01 ∷ 0x02 ∷ length serial ∷ []) serial rest refl refl in
    let lo' : leb 1 (length serial) ≡ true = ground arith in
    let hi' : leb (length serial) 32 ≡ true = ground arith in
    let fits : leb (5 + length serial) (suc (suc (suc (suc (suc (length (serial ++ rest)))))))
        ≡ true =
      ground (arith, length-append serial rest) in
    let enough' : ltb (suc (suc (suc (suc (suc (length (serial ++ rest))))))) 5 ≡ false =
      ground arith in
    rw (s, p, enough', lo', hi', fits, part, ascii)

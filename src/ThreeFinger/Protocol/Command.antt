-- ===== src/ThreeFinger/Protocol/Command.antt =====
-- The command image read back as the gripper reads it.
use ur5_ros.Common.{
  ℕ, zero, suc, ◌/◌, ◌%◌, ◌≤◌, ◌<◌, ◌≡◌, refl, arith, Bool, true, false, Option, none, some, List,
  [], ◌∷◌, ◌==◌, if◌then◌else◌, ltb, length,
}
use ur5_ros.ThreeFinger.Messages.{Command}
use ur5_ros.ThreeFinger.Protocol.{action_byte, option_byte, pack_command}

-- Bit `divisor` of a byte.
pub bit : ℕ → ℕ → Bool
bit byte divisor = if byte / divisor % 2 == 1 then true else false

pub read_image : List ℕ → Option Command
read_image (b0 ∷ b1 ∷ b2 ∷ pa ∷ sa ∷ fa ∷ pb ∷ sb ∷ fb ∷ pc ∷ sc ∷ fc ∷ ps ∷ ss ∷ fs ∷ b15 ∷ []) =
    some (record {
      command_id = 0;
      activate = bit b0 1;
      mode = b0 / 2 % 4;
      go_to = bit b0 8;
      automatic_release = bit b0 16;
      glove_mode = bit b1 1;
      individual_finger_control = bit b1 4;
      individual_scissor_control = bit b1 8;
      position_a = pa;
      speed_a = sa;
      force_a = fa;
      position_b = pb;
      speed_b = sb;
      force_b = fb;
      position_c = pc;
      speed_c = sc;
      force_c = fc;
      position_scissor = ps;
      speed_scissor = ss;
      force_scissor = fs;
    })
read_image _ = none

-- The bits of a valid command do not overlap.
record ActionBits (a : Bool) (mode : ℕ) (g r : Bool) : Type 0 where
  activate_bit : bit (action_byte a mode g r) 1 ≡ a
  mode_bits : action_byte a mode g r / 2 % 4 ≡ mode
  go_to_bit : bit (action_byte a mode g r) 8 ≡ g
  release_bit : bit (action_byte a mode g r) 16 ≡ r
  is_byte : action_byte a mode g r < 256

action_byte-bits : (a : Bool) (mode : ℕ) (g r : Bool) → mode ≤ 3 → ActionBits a mode g r
unfolding action_byte bit
action_byte-bits a (suc (suc (suc (suc mode)))) g r h = absurd (omega arith)
action_byte-bits a zero g r h = ground arith
action_byte-bits a (suc zero) g r h = ground arith
action_byte-bits a (suc (suc zero)) g r h = ground arith
action_byte-bits a (suc (suc (suc zero))) g r h = ground arith

record OptionBits (g f s : Bool) : Type 0 where
  glove_bit : bit (option_byte g f s) 1 ≡ g
  finger_bit : bit (option_byte g f s) 4 ≡ f
  scissor_bit : bit (option_byte g f s) 8 ≡ s
  is_byte : option_byte g f s < 256

option_byte-bits : (g f s : Bool) → OptionBits g f s
unfolding option_byte bit
option_byte-bits g f s = ground arith

image_of : Command → List ℕ
image_of c =
    action_byte c.activate c.mode c.go_to c.automatic_release
    ∷ option_byte c.glove_mode c.individual_finger_control c.individual_scissor_control
    ∷ 0
    ∷ c.position_a
    ∷ c.speed_a
    ∷ c.force_a
    ∷ c.position_b
    ∷ c.speed_b
    ∷ c.force_b
    ∷ c.position_c
    ∷ c.speed_c
    ∷ c.force_c
    ∷ c.position_scissor
    ∷ c.speed_scissor
    ∷ c.force_scissor
    ∷ 0
    ∷ []

read_image-image_of :
    (c : Command) → c.mode ≤ 3 → read_image (image_of c) ≡ some (record c { command_id = 0 })
unfolding image_of read_image
read_image-image_of c h =
    let first = action_byte-bits c.activate c.mode c.go_to c.automatic_release h in
    let second =
      option_byte-bits c.glove_mode c.individual_finger_control c.individual_scissor_control in
    rw (
      first.activate_bit, first.mode_bits, first.go_to_bit, first.release_bit, second.glove_bit,
      second.finger_bit, second.scissor_bit,
    )

-- A command of a valid mode is packed, and the gripper reads every field of it from the image; only
-- the command's id is not in it.
pub read_image-pack_command :
    (c : Command)
    → c.mode ≤ 3
    → (image : List ℕ) × (pack_command c ≡ some image)
      × (length image ≡ 16)
      × (read_image image ≡ some (record c { command_id = 0 }))
unfolding pack_command image_of
read_image-pack_command c h = (image_of c, rw (valid c.mode h), refl, read_image-image_of c h)
  where
    valid : (mode : ℕ) → mode ≤ 3 → ltb 3 mode ≡ false
    valid mode h = ground arith

-- A command of another mode is refused.
pack_command_refused : (c : Command) → 3 < c.mode → pack_command c ≡ none
unfolding pack_command
pack_command_refused c h = ground arith

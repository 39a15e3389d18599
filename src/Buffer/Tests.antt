-- ===== src/Buffer/Tests.antt =====
-- Runs of src/buffer_util.h, and its laws at concrete bytes.
use droidcam_whip_c.Buffer.RoundTrip.{read32be-write32be, read64be-value}
use droidcam_whip_c.Buffer.{buffer_write32be, buffer_read32be, buffer_write16be, buffer_read64be}
use droidcam_whip_c.Common.{refl, arith, ◌≡◌, [], ◌∷◌}

read64_test : buffer_read64be (255 ∷ 255 ∷ 255 ∷ 255 ∷ 0 ∷ 0 ∷ 1 ∷ 2 ∷ []) ≡ 0xffff_ffff_0000_0102
unfolding buffer_read64be
read64_test = refl

write16_test : buffer_write16be (9 ∷ 9 ∷ 9 ∷ []) 0x1234 ≡ 0x12 ∷ 0x34 ∷ 9 ∷ []
unfolding buffer_write16be
write16_test = refl

read32be_write32be_test :
    buffer_read32be (buffer_write32be (7 ∷ 7 ∷ 7 ∷ 7 ∷ 1 ∷ []) 0x8899_aabb) ≡ 0x8899_aabb
read32be_write32be_test = read32be-write32be 7 7 7 7 (1 ∷ []) 0x8899_aabb (omega arith)

read64be_test : buffer_read64be (0 ∷ 0 ∷ 0 ∷ 1 ∷ 0 ∷ 0 ∷ 2 ∷ 3 ∷ []) ≡ 0x1_0000_0203
read64be_test =
    read64be-value 0 0 0 1 0 0 2 3 [] (omega arith) (omega arith) (omega arith) (omega arith)
      (omega arith) (omega arith) (omega arith) (omega arith)

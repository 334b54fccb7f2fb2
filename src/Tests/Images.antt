-- ===== src/Tests/Images.antt =====
-- Performancelab/kernels.c on images whose pixels hold their own places.
use cs4400_fall.Prelude.{◌+◌, ◌-◌, ◌*◌, ◌/◌, ◌≡◌, refl, arith}
use cs4400_fall.Images.{Image, ridx, pinwheel, naive_pinwheel, motion, naive_motion}
use cs4400_fall.Images.Pinwheel.{pinwheel-naive_pinwheel}
use cs4400_fall.Images.Turned.{pinwheel-quarters, pinwheel_behind}
use cs4400_fall.Images.Motion.{motion-naive_motion}

abbrev picture : Image
picture a = record { red = 64 * a; green = 32 * a + 7; blue = 65535 - a }

abbrev canvas : Image
canvas a = record { red = 1; green = 2; blue = 3 }

pinwheel-naive_pinwheel_example : pinwheel 16 picture canvas ≡ naive_pinwheel 16 picture canvas
pinwheel-naive_pinwheel_example = pinwheel-naive_pinwheel 16 picture canvas refl

pinwheel-quarters_example :
    (pinwheel 16 picture canvas (ridx (16 / 2 - 1 - 5) 2 16) ≡ picture (ridx 2 5 16))
    × (pinwheel 16 picture canvas (ridx (16 / 2 - 1 - 5) (16 / 2 + 2) 16)
        ≡ picture (ridx 2 (16 / 2 + 5) 16))
    × (pinwheel 16 picture canvas (ridx (16 - 1 - 5) 2 16) ≡ picture (ridx (16 / 2 + 2) 5 16))
    × (pinwheel 16 picture canvas (ridx (16 - 1 - 5) (16 / 2 + 2) 16)
        ≡ picture (ridx (16 / 2 + 2) (16 / 2 + 5) 16))
pinwheel-quarters_example = pinwheel-quarters 16 2 5 picture canvas refl (omega arith) (omega arith)

pinwheel_behind_example : pinwheel 16 picture canvas 300 ≡ canvas 300
pinwheel_behind_example = pinwheel_behind 16 300 picture canvas refl (omega arith)

motion-naive_motion_example : motion 8 picture canvas ≡ naive_motion 8 picture canvas
motion-naive_motion_example = motion-naive_motion 8 picture canvas (omega arith) refl

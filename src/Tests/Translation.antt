-- ===== src/Tests/Translation.antt =====
-- Concrete inputs for the theorems on the address translation.
use aim_simulator.Base.{
  none, arith, ℕ, ◌+◌, ◌*◌, ◌%◌, ◌^◌, ◌<◌, ◌≡◌, refl, Bool, true, pos, to_uint, ok,
}
use aim_simulator.Request.{Request, default_request}
use aim_simulator.Translation.Random.{Generator, RandomTranslation, init, translate, reserve}
use aim_simulator.Translation.Inside.{IsInside, translate-IsInside}
use aim_simulator.Tests.System.{value_of}

-- The numbers from 6 on, for 4 pages of 16 bytes and one core.
abbrev counter : Generator
counter = record { State = ℕ; next = λ n. (n + 1, n) }

abbrev untouched : RandomTranslation counter
untouched = init counter 6 4 4 1

abbrev access : Request
access = record default_request { addr = pos 37; source_id = pos 0 }

abbrev translated : RandomTranslation counter × Request × Bool
translated = value_of (translate counter 1 untouched access) (untouched, access, true)

-- Another page of the core, and a reserved page, in between.
abbrev access_2 : Request
access_2 = record default_request { addr = pos 5; source_id = pos 0 }

abbrev translated_2 : RandomTranslation counter × Request × Bool
translated_2 = value_of (translate counter 4 translated.0 access_2) (untouched, access, true)

abbrev reserved : RandomTranslation counter × Bool
reserved = value_of (reserve counter translated_2.0 "Hydra" (pos 16)) (untouched, true)

untouched-IsInside : IsInside counter untouched
untouched-IsInside = ((λ v p h. absurd (ground arith)), tt)

translate-IsInside_example :
    (s : RandomTranslation counter) × (req : Request) × (translate counter 1 untouched access
      ≡ ok (s, req, true))
    × IsInside counter s
    × ((p : ℕ) × (p < 4) × (req.addr ≡ pos (p * 2 ^ 4 + to_uint 64 (pos 37) % 2 ^ 4)))
translate-IsInside_example =
    translate-IsInside counter 1 untouched access 0 (λ v. none) refl refl (omega arith) refl
      (0, omega arith, refl) untouched-IsInside

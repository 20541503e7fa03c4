-- ===== src/Main/Clocks.antt =====
-- The identifiers of clocks: their way to a descriptor and back, and which clocks `device_init` leaves.
use external_servo.Prelude.{
  ℕ, ◌+◌, ◌*◌, ◌^◌, ◌<◌, ◌≡◌, ◌≢◌, refl, sym, ap, ◌∙◌, ◌⊎◌, inl, inr, true, false, List, [], ◌∷◌,
  length, ◌==◌, ◌&&◌, Bool-cases, arith,
}
use mathlib.Core.Path.{subst}
use external_servo.Prelude.Int.{ℤ, pos, negsuc, ltb_ℤ, eqb_ℤ, ◌*ℤ◌, ◌+ℤ◌}
use external_servo.Prelude.Word.{wrap32}
use external_servo.Config.Types.{DeviceConfig}
use external_servo.Config.Tables.{same_text}
use external_servo.Clockadj.{clock_realtime}
use external_servo.Main.{clock_invalid, fd_to_clockid, clockid_to_fd, phc_init, device_init}

clockid_value : (fd : ℕ) → fd < 2 ^ 28 → fd_to_clockid (pos fd) ≡ negsuc (fd * 8 + 4)
unfolding fd_to_clockid wrap32 ◌*ℤ◌ ◌+ℤ◌
clockid_value fd h = ground arith

pub clockid_to_fd-fd_to_clockid :
    (fd : ℕ)
    → fd < 2 ^ 28
    → (clockid_to_fd (fd_to_clockid (pos fd)) ≡ pos fd)
      × (fd_to_clockid (pos fd) ≢ clock_invalid)
      × (fd_to_clockid (pos fd) ≢ clock_realtime)
unfolding clockid_to_fd wrap32
clockid_to_fd-fd_to_clockid fd h =
    rw (clockid_value fd h) (ground arith, ground arith, ground arith)

same_text→≡ : (s t : List ℕ) → same_text s t ≡ true → s ≡ t
same_text→≡ [] [] h = refl
same_text→≡ [] (b ∷ t) h = absurd (grind arith)
same_text→≡ (a ∷ s) [] h = absurd (grind arith)
same_text→≡ (a ∷ s) (b ∷ t) h =
    let e : s ≡ t = same_text→≡ s t (ground arith) in
    let k : a ≡ b = ground arith in ap (◌∷◌ a) e ∙ ap (λ z. z ∷ t) k

-- the clock of a device that could be opened
abbrev pub IsOpened : ℤ → ℤ → Type 0
IsOpened fd clkid = (ltb_ℤ fd (pos 0) ≡ false) × (clkid ≡ fd_to_clockid fd)

phc_init-IsOpened : (fd : ℤ) → eqb_ℤ (phc_init fd) clock_invalid ≡ false → IsOpened fd (phc_init fd)
unfolding phc_init
phc_init-IsOpened fd h = elim (Bool-cases (ltb_ℤ fd (pos 0))) [
  | inl shut ↦
      absurd (let k : eqb_ℤ clock_invalid clock_invalid ≡ false = rw shut at h in ground arith)
  | inr fine ↦ rw fine (refl, refl)
]

is_empty : (s : List ℕ) → (length s == 0) ≡ true → s ≡ []
is_empty [] h = refl
is_empty (a ∷ s) h = absurd (ground arith)

refused : negsuc 0 ≢ pos 0
refused = ground arith

-- Where the initialisation of the devices succeeds, both names are empty and both clocks are the
-- system clock, or both devices could be opened and the clocks are those of their descriptors.
pub device_init-IsOpened :
    (open_device : List ℕ → ℤ) (cfg cfg' : DeviceConfig)
    → device_init open_device cfg ≡ (pos 0, cfg')
    → ((cfg.freq_device ≡ [])
        × (cfg.tod_device ≡ [])
        × (cfg'.freq_clk_id ≡ clock_realtime)
        × (cfg'.tod_clk_id ≡ clock_realtime))
      ⊎ (IsOpened (open_device cfg.freq_device) cfg'.freq_clk_id
          × IsOpened (open_device cfg.tod_device) cfg'.tod_clk_id)
unfolding device_init
device_init-IsOpened open_device cfg cfg' h =
    let freq : ℤ = phc_init (open_device cfg.freq_device) in
    let tod : ℤ = phc_init (open_device cfg.tod_device) in
    elim (Bool-cases (length cfg.freq_device == 0 && (length cfg.tod_device == 0))) [
      | inl nameless ↦
          let e = rw nameless at h in
          inl (
            is_empty cfg.freq_device (ground arith),
            is_empty cfg.tod_device (ground arith),
            sym (ap (λ r. r.1.freq_clk_id) e),
            sym (ap (λ r. r.1.tod_clk_id) e),
          )
      | inr named ↦ elim (Bool-cases (same_text cfg.freq_device cfg.tod_device)) [
        | inl same ↦ elim (Bool-cases (eqb_ℤ freq clock_invalid)) [
          | inl bad ↦ absurd (refused (ap (λ r. r.0) (rw (named, same, bad) at h)))
          | inr good ↦
              let e = rw (named, same, good) at h in
              let opened = phc_init-IsOpened (open_device cfg.freq_device) good in
              let tod_opened : IsOpened (open_device cfg.freq_device) cfg'.tod_clk_id =
                (opened.0, sym (ap (λ r. r.1.tod_clk_id) e) ∙ opened.1) in
              inr (
                (opened.0, sym (ap (λ r. r.1.freq_clk_id) e) ∙ opened.1),
                subst (λ z. IsOpened (open_device z) cfg'.tod_clk_id)
                    (same_text→≡ cfg.freq_device cfg.tod_device same) tod_opened,
              )
        ]
        | inr other ↦ elim (Bool-cases (eqb_ℤ tod clock_invalid)) [
          | inl bad ↦ absurd (refused (ap (λ r. r.0) (rw (named, other, bad) at h)))
          | inr good ↦ elim (Bool-cases (eqb_ℤ freq clock_invalid)) [
            | inl bad ↦ absurd (refused (ap (λ r. r.0) (rw (named, other, good, bad) at h)))
            | inr fine ↦
                let e = rw (named, other, good, fine) at h in
                let opened = phc_init-IsOpened (open_device cfg.freq_device) fine in
                let tod_opened = phc_init-IsOpened (open_device cfg.tod_device) good in
                inr (
                  (opened.0, sym (ap (λ r. r.1.freq_clk_id) e) ∙ opened.1),
                  (tod_opened.0, sym (ap (λ r. r.1.tod_clk_id) e) ∙ tod_opened.1),
                )
          ]
        ]
      ]
    ]

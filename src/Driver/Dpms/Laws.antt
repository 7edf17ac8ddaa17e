-- ===== src/Driver/Dpms/Laws.antt =====
-- The DPMS modes as states of the display.
use p4_hmd.Base.{◌≡◌, refl, ◌∙◌, ap, Bool, true}
use p4_hmd.Base.{if_ind}
use p4_hmd.Driver.State.{
  Device, BlankState, unblank, normal_blank, vsync_suspend, hsync_suspend, powerdown,
}
use p4_hmd.Driver.Dpms.{DpmsMode, dpms_to_blank, same_blank, p4_dpms_set}

same_blank_refl : (b : BlankState) → same_blank b b ≡ true
same_blank_refl unblank = refl
same_blank_refl normal_blank = refl
same_blank_refl vsync_suspend = refl
same_blank_refl hsync_suspend = refl
same_blank_refl powerdown = refl

same_blank_eq : (b c : BlankState) → same_blank b c ≡ true → c ≡ b
same_blank_eq unblank unblank h = refl
same_blank_eq unblank normal_blank h = cc
same_blank_eq unblank vsync_suspend h = cc
same_blank_eq unblank hsync_suspend h = cc
same_blank_eq unblank powerdown h = cc
same_blank_eq normal_blank unblank h = cc
same_blank_eq normal_blank normal_blank h = refl
same_blank_eq normal_blank vsync_suspend h = cc
same_blank_eq normal_blank hsync_suspend h = cc
same_blank_eq normal_blank powerdown h = cc
same_blank_eq vsync_suspend unblank h = cc
same_blank_eq vsync_suspend normal_blank h = cc
same_blank_eq vsync_suspend vsync_suspend h = refl
same_blank_eq vsync_suspend hsync_suspend h = cc
same_blank_eq vsync_suspend powerdown h = cc
same_blank_eq hsync_suspend unblank h = cc
same_blank_eq hsync_suspend normal_blank h = cc
same_blank_eq hsync_suspend vsync_suspend h = cc
same_blank_eq hsync_suspend hsync_suspend h = refl
same_blank_eq hsync_suspend powerdown h = cc
same_blank_eq powerdown unblank h = cc
same_blank_eq powerdown normal_blank h = cc
same_blank_eq powerdown vsync_suspend h = cc
same_blank_eq powerdown hsync_suspend h = cc
same_blank_eq powerdown powerdown h = refl

set_blank_state :
    (cold : Bool) (others : Device → Device) (mode : DpmsMode) (p4 : Device)
    → (p4_dpms_set cold others mode p4).blank_state ≡ dpms_to_blank mode
unfolding p4_dpms_set
set_blank_state cold others mode p4 =
    if_ind (λ (s : Device). s.blank_state ≡ dpms_to_blank mode)
      (same_blank (dpms_to_blank mode) p4.blank_state) _ _
      (λ t. same_blank_eq (dpms_to_blank mode) p4.blank_state t) (λ _. refl)

already_set :
    (cold : Bool) (others : Device → Device) (mode : DpmsMode) (p4 : Device)
    → p4.blank_state ≡ dpms_to_blank mode
    → p4_dpms_set cold others mode p4 ≡ p4
unfolding p4_dpms_set
already_set cold others mode p4 e =
    let t : same_blank (dpms_to_blank mode) p4.blank_state ≡ true =
      ap (same_blank (dpms_to_blank mode)) e ∙ same_blank_refl (dpms_to_blank mode) in
    rw t refl

-- After `p4_dpms_set` the blank state is that of the mode, whatever it was and whatever else ran
-- meanwhile; setting the same mode again does nothing, also with another answer of the COLD pin.
p4_dpms_set_idem :
    (cold cold' : Bool) (others others' : Device → Device) (mode : DpmsMode) (p4 : Device)
    → let p4' = p4_dpms_set cold others mode p4 in
      (p4'.blank_state ≡ dpms_to_blank mode) × (p4_dpms_set cold' others' mode p4' ≡ p4')
p4_dpms_set_idem cold cold' others others' mode p4 =
    let set = set_blank_state cold others mode p4 in (set, already_set cold' others' mode _ set)

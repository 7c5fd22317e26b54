-- ===== src/Drives/First.antt =====
-- Kernel/drivers/io/drive.c: the drive of the first driver.
use aos.Base.{ℕ, ◌≡◌, arith, Bool, true, false, ◌&&◌, ◌==◌, if◌then◌else◌}
use aos.Base.{List, [], ◌∷◌, get_elem?, Exec, done, fault}
use aos.Modules.{Registry, is_registered, get_registered_driver}
use aos.Modules.Search.{fitting, or_null, get_registered_driver_lem}
use aos.Drives.{Sata, Found, nothing, mass_storage, find_by_type, get_available_drives}
use aos.Drives.Walk.{all_drivers, fitting-all_drivers}

module _ {State : Type 0} (ops : Sata State) (ata_exists ata_set : Bool) (s : State) where
  -- What becomes of the drivers, the first of which counts.
  abbrev pub first_drive : List ℕ → Exec (Found × State)
  first_drive [] = if ata_exists && ata_set then fault else done (nothing, s)
  first_drive (p ∷ ps) = done (find_by_type ops s p (ops.device s p).type)

  get_available_drives-first :
      (r : Registry) (ps : List ℕ)
      → get_registered_driver r mass_storage 0 ≡ done (or_null (get_elem? ps 0))
      → all_drivers r.modules ps ≡ true
      → get_available_drives ops r ata_exists ata_set s ≡ first_drive ps
  unfolding get_available_drives
  get_available_drives-first r [] e drivers = rw e
  get_available_drives-first r (p ∷ ps) e drivers =
      let there : (p == 0) ≡ false = ground (arith, drivers) in
      let is_driver : (r.modules p).is_driver ≡ true = ground (arith, drivers) in
      rw (e, there, is_driver)

  -- On a full registry get_available_drives answers by the first registered driver of the class of
  -- drives alone, whether it gives a drive or not. Without one it answers AOS_FALSE, but where there is
  -- a legacy drive and it was set, it follows NULL.
  pub get_available_drives_lem :
      (r : Registry)
      → is_registered r.slots 0 ≡ false
      → get_available_drives ops r ata_exists ata_set s
        ≡ first_drive (fitting r.modules mass_storage r.slots)
  get_available_drives_lem r full =
      get_available_drives-first r (fitting r.modules mass_storage r.slots)
        (get_registered_driver_lem r mass_storage 0 full)
        (fitting-all_drivers r.modules mass_storage r.slots)

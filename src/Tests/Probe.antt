-- ===== src/Tests/Probe.antt =====
-- The probe of the device, on the small one.
use sundown.Base.{◌≡◌, get, str, text_eq}
use sundown.Capability.{probe, is_there}
use sundown.Capability.Laws.{level_of, probe_level}
use sundown.Tests.Device.{toy_os, device}

probe_level_example :
    let c = (probe toy_os (λ p w. is_there (get p w)) (str "bpf") 7 99 device.world).0 in
    c.freezer ≡ level_of c.freezer_uid_path c.freezer_v1_path
probe_level_example = probe_level toy_os (λ p w. is_there (get p w)) (str "bpf") 7 99 device.world

-- ===== src/Examples/Boots.antt =====
-- The identifiers of two boots.
use vorsprung_logger.Base.{◌≡◌, refl}
use vorsprung_logger.Time.Boot.{Boot, anchor_init}

abbrev first : Boot
first = record { boot_seq = 0; boot_id = 0 }

-- With these two numbers of `esp_random`, two boots in a row have one identifier.
same_id :
    (anchor_init 2654435761 first).boot_id
    ≡ (anchor_init 1013904226 (anchor_init 2654435761 first)).boot_id
unfolding anchor_init
same_id = refl

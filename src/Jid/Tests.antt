-- ===== src/Jid/Tests.antt =====
-- The theorems on JIDs at concrete addresses.
use sara.Common.{split, ◌≡◌, refl, ◌↔◌, ◌≢◌, [], codes, ok}
use sara.Jid.{Jid, new_jid, string, to_sessionid, to_offline_key}
use sara.Jid.Parse.{IsParsed, new_jid-string-new_jid, new_jid-IsParsed}
use sara.Jid.Keys.{key_iff}

abbrev phone : Jid
phone = record { user = codes "usr1"; domain = codes "test.com"; resource = codes "phone" }

abbrev desk : Jid
desk = record { user = codes "usr1"; domain = codes "test.com"; resource = [] }

phone-read : new_jid (codes "usr1@test.com/phone") ≡ ok phone
unfolding new_jid split
phone-read = refl

desk-read : new_jid (codes "usr1@test.com") ≡ ok desk
unfolding new_jid split
desk-read = refl

phone-IsParsed : IsParsed phone
phone-IsParsed = new_jid-IsParsed (codes "usr1@test.com/phone") phone phone-read

desk-IsParsed : IsParsed desk
desk-IsParsed = new_jid-IsParsed (codes "usr1@test.com") desk desk-read

new_jid-string-new_jid_example : new_jid (string phone) ≡ ok phone
new_jid-string-new_jid_example =
    new_jid-string-new_jid (codes "usr1@test.com/phone") phone phone-read

key_iff_example :
    ((to_sessionid phone ≡ to_sessionid desk)
      ↔ ((phone.user ≡ desk.user) × (phone.domain ≡ desk.domain)))
    × ((to_offline_key phone ≡ to_offline_key desk)
        ↔ ((phone.user ≡ desk.user) × (phone.domain ≡ desk.domain)))
    × (to_sessionid phone ≢ to_offline_key desk)
key_iff_example = key_iff phone desk phone-IsParsed desk-IsParsed

-- ===== src/Tests/Owner/Publishing.antt =====
-- A publication to the peer of an owner, one that finds nobody, and the turn of the scheduler.
use rtn_mq.Message.Topic.{topic_eq}
use rtn_mq.Auth.Claims.{allows}
use rtn_mq.Auth.Trust.{is_stale, saturating_add, check}
use rtn_mq.Endpoint.Owner.Session.{local_valid}
use rtn_mq.Message.Topic.Ordering.{topic_key}
use rtn_mq.Prelude.Bytes.{Bytes, bytes_eq}
use rtn_mq.Prelude.Map.{get}
use rtn_mq.Prelude.{
  ◌≡◌, refl, some, List, [], ◌∷◌, replicate, false, length, length-append, arith, ◌++◌, ◌+◌, ◌∙◌,
  ap,
}
use rtn_mq.Error.{ok, err, no_subscribers}
use rtn_mq.Message.Envelope.{DeliveryMode, MessageId, Envelope, sign, encode}
use rtn_mq.Auth.Cose.{sign_cose, cose}
use rtn_mq.Cbor.{finish}
use rtn_mq.Join.Options.{from_secs}
use rtn_mq.Endpoint.Outcome.{PublishOptions}
use rtn_mq.Endpoint.Owner.{Owner, new_owner}
use rtn_mq.Endpoint.Owner.Publish.{
  Recipient, publish, envelope_of, check_publish, recipients, reserve_each, next_sequence,
  publish_next,
}
use rtn_mq.Buffer.{reserve}
use rtn_mq.Endpoint.Owner.Schedule.{schedule}
use rtn_mq.Endpoint.Owner.Numbering.{
  Numbered, AdmitsNobody, publish_sound, publish-failed, publish-publish_next,
  publish_next-reserved,
}
use rtn_mq.Endpoint.Owner.Feeding.{AllFed, schedule-AllFed}
use rtn_mq.Endpoint.Owner.Commands.{state_of}
use rtn_mq.Tests.Cbor.{minicbor, put_head, put_string}
use rtn_mq.Tests.Crypto.{iroh, pad, iroh_laws}
use rtn_mq.Tests.Message.{jobs, secret}
use rtn_mq.Tests.Owner.{settings, outside, peer, start, budget, me, realm, sub}

abbrev lone : Owner
unfolding new_owner
lone = record (new_owner start) { metadata = budget 0 }

abbrev ready : Owner
unfolding lone
ready = record lone { peers = (secret, peer (some 600) false) ∷ [] }

abbrev options : PublishOptions
options = record { mode = DeliveryMode.acknowledged; format = []; lifetime = from_secs 60 }

abbrev payload : Bytes
payload = 1 ∷ 2 ∷ 3 ∷ []

abbrev first : MessageId
first = record {
  realm_id = realm;
  publisher_endpoint_id = me;
  publisher_epoch = replicate 16 5;
  topic = jobs;
  sequence = 1;
}

abbrev to : Recipient
to = record { peer = secret; state = peer (some 600) false; sub = sub }

abbrev to_peer : List Recipient
to_peer = to ∷ []

abbrev signed_envelope : Envelope
signed_envelope = record {
  id = first;
  created = 100;
  expires = 160;
  format = [];
  len = 3;
  digest = iroh.sha256 payload;
  mode = DeliveryMode.acknowledged;
}

abbrev signed : Bytes
signed = sign signed_envelope me

abbrev encoded : Bytes
encoded = encode signed_envelope

length-encoded : length encoded ≡ 117
unfolding minicbor put_head put_string encode finish envelope_of ready lone iroh pad new_owner
length-encoded = refl

length-cose : (p s : Bytes) → length p ≡ 117 → length s ≡ 64 → length (cose p s) ≡ 191
unfolding cose minicbor put_head put_string finish
length-cose p s a b =
    ground (arith, a, b, length-append p (put_string 2 s ++ []), length-append s [])

length-signed : length signed ≡ 191
unfolding sign sign_cose
length-signed = length-cose _ _ length-encoded (iroh_laws.sign_size me _)

checked : check_publish settings (outside 100) jobs payload options ready ≡ ok 100
unfolding check_publish local_valid ready check bytes_eq get saturating_add is_stale allows topic_eq
checked = refl

found : recipients 100 jobs options ready ready.peers ≡ to_peer
unfolding recipients ready get topic_key bytes_eq check saturating_add is_stale
found = refl

numbered : (next_sequence settings jobs ready.sequences).0 ≡ ok 1
unfolding next_sequence get ready lone new_owner
numbered = refl

abbrev counted : Owner
counted = record ready { sequences = (next_sequence settings jobs ready.sequences).1 }

abbrev published : Owner
published =
    state_of (publish_next settings (outside 100) 100 1 jobs payload options to_peer counted)

fits : (reserve_each to_peer (length signed + 2048) (budget 0)).0 ≡ ok tt
unfolding reserve_each reserve
fits = rw length-signed refl

goes_on :
    publish settings (outside 100) jobs payload options ready
    ≡ publish_next settings (outside 100) 100 1 jobs payload options to_peer counted
goes_on =
    publish-publish_next settings (outside 100) jobs payload options ready 100 1 to [] checked found
      numbered

goes_out :
    (publish_next settings (outside 100) 100 1 jobs payload options to_peer counted).0
    ≡ ok (first, to_peer)
unfolding ready lone new_owner envelope_of
goes_out =
    publish_next-reserved settings (outside 100) 100 1 jobs payload options to_peer counted
      (omega arith) signed_envelope refl fits

publishes :
    publish settings (outside 100) jobs payload options ready ≡ (ok (first, to_peer), published)
publishes = goes_on ∙ ap (λ r. (r, published)) goes_out

publish_sound_example : Numbered jobs ready published first
publish_sound_example =
    publish_sound settings (outside 100) jobs payload options to_peer ready published first
      publishes

finds_nobody : publish settings (outside 100) jobs payload options lone ≡ (err no_subscribers, lone)
unfolding publish local_valid lone check bytes_eq get saturating_add is_stale allows topic_eq
finds_nobody = refl

publish-failed_example : AdmitsNobody lone lone
publish-failed_example =
    publish-failed settings (outside 100) jobs payload options lone lone no_subscribers finds_nobody

schedule-AllFed_example : AllFed published (schedule settings (outside 100) published)
schedule-AllFed_example = schedule-AllFed settings (outside 100) published

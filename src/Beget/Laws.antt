-- ===== src/Beget/Laws.antt =====
-- What an update at Beget sends and returns.
use ddns_updater_beget.Common.{
  ℕ, ◌≡◌, ◌≢◌, ◌↔◌, refl, sym, ap, ◌∙◌, Bool, true, false, ◌⊎◌, inl, inr, [], ◌∷◌, Option, none,
  some, Bytes, codes, Error, beq_iff, ◌==◌, arith, Bool-cases,
}
use ddns_updater_beget.Net.{Addr}
use ddns_updater_beget.Beget.{
  Beget, RawMap, GetData, ChangeRequest, Called, create_failed, do_failed, read_failed, answered,
  Api, api_call, set_key, get_key, refuse, accept, change, send, put_entry, indicates_success,
  with_data, with_body, with_request, update_beget,
}

get_key-set_key_self :
    (key value : Bytes) (m : RawMap) → get_key key (set_key key value m) ≡ some value
unfolding get_key set_key
get_key-set_key_self key value [] = ground (arith, beq_iff key key)
get_key-set_key_self key value ((k, v) ∷ m) =
    ground (arith, beq_iff k key, get_key-set_key_self key value m)

get_key-set_key_ne :
    (key other value : Bytes) (m : RawMap)
    → other ≢ key
    → get_key other (set_key key value m) ≡ get_key other m
unfolding get_key set_key
get_key-set_key_ne key other value [] ne = ground (arith, beq_iff key other)
get_key-set_key_ne key other value ((k, v) ∷ m) ne =
    ground (arith, beq_iff k key, beq_iff k other, get_key-set_key_ne key other value m ne)

module _ (show : Addr → Bytes) (ip : Addr) (api : Api) (p : Beget) where
  -- The request that changes the records `rs`.
  abbrev request_for : RawMap → Bytes → ChangeRequest
  request_for rs entry = record { fqdn = p.target; records = set_key (codes "A") entry rs }

  -- What stands behind a request that was sent.
  abbrev pub IsSent : ChangeRequest → Type 0
  IsSent request =
      (body : Bytes) × (d : GetData) × (rs : RawMap) × (entry : Bytes) × (api.get_data
        ≡ answered 200 body)
      × (api.decode_get body ≡ inl d)
      × (d.fqdn ≡ p.target)
      × (d.records ≡ some rs)
      × (api.marshal_entry p.priority (show ip) ≡ inl entry)
      × (request ≡ request_for rs entry)

  sent-send :
      (request : ChangeRequest) (o : Option Error) (request' : ChangeRequest) (r : Addr ⊎ Error)
      → send ip api request o ≡ some (some request', r)
      → request ≡ request'
  unfolding send change refuse
  sent-send request none request' r h = cc
  sent-send request (some e) request' r h = cc

  sent-put_entry :
      (o : Option RawMap) (m : Bytes ⊎ Error) (request : ChangeRequest) (r : Addr ⊎ Error)
      → put_entry ip api p o m ≡ some (some request, r)
      → (rs : RawMap) × (entry : Bytes) × (o ≡ some rs)
        × (m ≡ inl entry)
        × (request ≡ request_for rs entry)
  unfolding put_entry refuse
  sent-put_entry o (inr e) request r h = cc
  sent-put_entry none (inl entry) request r h = cc
  sent-put_entry (some rs) (inl entry) request r h =
      (rs, entry, refl, refl, sym (sent-send (request_for rs entry) api.marshal_change request r h))

  fqdn_of_success : (d : GetData) → indicates_success p d ≡ true → d.fqdn ≡ p.target
  unfolding indicates_success
  fqdn_of_success d h = ground (arith, beq_iff d.fqdn p.target)

  -- A body with which apiCall returns no error is that of a reply of status 200.
  api_call-ok :
      (path : Bytes) (c : Called) (body : Bytes)
      → api_call path c ≡ (body, none)
      → c ≡ answered 200 body
  unfolding api_call
  api_call-ok path (create_failed e) body h = cc
  api_call-ok path (do_failed e) body h = cc
  api_call-ok path (read_failed e) body h = cc
  api_call-ok path (answered code b) body h = ground arith

  IsSent-with_data :
      (body : Bytes) (m : GetData ⊎ Error) (request : ChangeRequest) (r : Addr ⊎ Error)
      → api.get_data ≡ answered 200 body
      → api.decode_get body ≡ m
      → with_data show ip api p m ≡ some (some request, r)
      → IsSent request
  unfolding with_data refuse
  IsSent-with_data body (inr e) request r got read h = cc
  IsSent-with_data body (inl d) request r got read h = elim (Bool-cases (indicates_success p d)) [
    | inl good ↦
        let put = rw good at h in
        let (rs, entry, e, f, g) =
          sent-put_entry d.records (api.marshal_entry p.priority (show ip)) request r put in
        (body, d, rs, entry, got, read, fqdn_of_success d good, e, f, g)
    | inr bad ↦ cc (rw bad at h)
  ]

  IsSent-with_body :
      (b : Bytes × Option Error) (request : ChangeRequest) (r : Addr ⊎ Error)
      → api_call (codes "api/dns/getData") api.get_data ≡ b
      → with_body show ip api p b ≡ some (some request, r)
      → IsSent request
  unfolding with_body refuse
  IsSent-with_body (body, some e) request r called h = cc
  IsSent-with_body (body, none) request r called h =
      IsSent-with_data body (api.decode_get body) request r
        (api_call-ok (codes "api/dns/getData") api.get_data body called) refl h

  IsSent-with_request :
      (o : Option Error) (request : ChangeRequest) (r : Addr ⊎ Error)
      → with_request show ip api p o ≡ some (some request, r)
      → IsSent request
  unfolding with_request refuse
  IsSent-with_request (some e) request r h = cc
  IsSent-with_request none request r h =
      IsSent-with_body (api_call (codes "api/dns/getData") api.get_data) request r refl h

  -- A request to change the records is only sent with the records that the reply to getData, of status
  -- 200, was decoded to for the target name: it is for the target name, its A record is the new entry, and each other record is as it
  -- was.
  pub update_beget_keeps :
      (request : ChangeRequest) (r : Addr ⊎ Error)
      → update_beget show ip api p ≡ some (some request, r)
      → (body : Bytes) × (d : GetData) × (rs : RawMap) × (entry : Bytes) × (api.get_data
          ≡ answered 200 body)
        × (api.decode_get body ≡ inl d)
        × (d.fqdn ≡ p.target)
        × (d.records ≡ some rs)
        × (api.marshal_entry p.priority (show ip) ≡ inl entry)
        × (request.fqdn ≡ p.target)
        × (get_key (codes "A") request.records ≡ some entry)
        × ((key : Bytes) → key ≢ codes "A" → get_key key request.records ≡ get_key key rs)
  unfolding update_beget
  update_beget_keeps request r h =
      let (body, d, rs, entry, got, read, name, records, marshalled, same) =
        IsSent-with_request api.marshal_get request r h in
      (
        body,
        d,
        rs,
        entry,
        got,
        read,
        name,
        records,
        marshalled,
        ap (λ q. q.fqdn) same,
        ap (λ q. get_key (codes "A") q.records) same ∙ get_key-set_key_self (codes "A") entry rs,
        λ key ne.
            ap (λ q. get_key key q.records) same ∙ get_key-set_key_ne (codes "A") key entry rs ne,
      )

  -- The steps before the assignment, when all of them succeed.
  update_beget-put_entry :
      (body : Bytes) (d : GetData)
      → api.marshal_get ≡ none
      → api.get_data ≡ answered 200 body
      → api.decode_get body ≡ inl d
      → indicates_success p d ≡ true
      → update_beget show ip api p
        ≡ put_entry ip api p d.records (api.marshal_entry p.priority (show ip))
  unfolding update_beget with_request with_body with_data api_call
  update_beget-put_entry body d m g e s = rw (m, g, e, s)

  -- The getData of status 200 is a success for the target name without any records, and the new entry
  -- is marshalled.
  abbrev pub HasNoRecords : Type 0
  HasNoRecords =
      (body : Bytes) × (d : GetData) × (entry : Bytes) × (api.marshal_get ≡ none)
      × (api.get_data ≡ answered 200 body)
      × (api.decode_get body ≡ inl d)
      × (indicates_success p d ≡ true)
      × (d.records ≡ none)
      × (api.marshal_entry p.priority (show ip) ≡ inl entry)

  send_total : (request : ChangeRequest) (o : Option Error) → send ip api request o ≢ none
  unfolding send change refuse
  send_total request none h = cc
  send_total request (some e) h = cc

  put_entry-none :
      (o : Option RawMap) (m : Bytes ⊎ Error)
      → put_entry ip api p o m ≡ none
      → (entry : Bytes) × (o ≡ none) × (m ≡ inl entry)
  unfolding put_entry refuse
  put_entry-none o (inr e) h = cc
  put_entry-none none (inl entry) h = (entry, refl, refl)
  put_entry-none (some rs) (inl entry) h =
      absurd (send_total (request_for rs entry) api.marshal_change h)

  with_data-none :
      (body : Bytes) (m : GetData ⊎ Error)
      → api.marshal_get ≡ none
      → api.get_data ≡ answered 200 body
      → api.decode_get body ≡ m
      → with_data show ip api p m ≡ none
      → HasNoRecords
  unfolding with_data refuse
  with_data-none body (inr e) made got read h = cc
  with_data-none body (inl d) made got read h = elim (Bool-cases (indicates_success p d)) [
    | inl good ↦
        let (entry, missing, marshalled) =
          put_entry-none d.records (api.marshal_entry p.priority (show ip)) (rw good at h) in
        (body, d, entry, made, got, read, good, missing, marshalled)
    | inr bad ↦ cc (rw bad at h)
  ]

  with_body-none :
      (b : Bytes × Option Error)
      → api.marshal_get ≡ none
      → api_call (codes "api/dns/getData") api.get_data ≡ b
      → with_body show ip api p b ≡ none
      → HasNoRecords
  unfolding with_body refuse
  with_body-none (body, some e) made called h = cc
  with_body-none (body, none) made called h =
      with_data-none body (api.decode_get body) made
        (api_call-ok (codes "api/dns/getData") api.get_data body called) refl h

  with_request-none :
      (o : Option Error) → api.marshal_get ≡ o → with_request show ip api p o ≡ none → HasNoRecords
  unfolding with_request refuse
  with_request-none (some e) made h = cc
  with_request-none none made h =
      with_body-none (api_call (codes "api/dns/getData") api.get_data) made refl h

  -- An update panics, by the assignment to a nil map, exactly if the request for getData is marshalled,
  -- its reply of status 200 is decoded to a success for the target name without any records, and the
  -- new entry is marshalled.
  pub update_beget_panics_iff : (update_beget show ip api p ≡ none) ↔ HasNoRecords
  update_beget_panics_iff = (
    λ h. with_request-none api.marshal_get refl (unfold update_beget in h),
    λ (body, d, entry, m, g, e, s, n, f).
        update_beget-put_entry body d m g e s ∙ rw (n, f) (unfold put_entry in refl),
  )

  -- When getData succeeds for the target name, what an update returns is decided by the body of the
  -- response to changeRecords alone, whatever its status code: the error of that call is lost.
  pub update_beget_ignores_status :
      (body entry change_body : Bytes) (code : ℕ) (d : GetData) (rs : RawMap)
      → api.marshal_get ≡ none
      → api.get_data ≡ answered 200 body
      → api.decode_get body ≡ inl d
      → indicates_success p d ≡ true
      → d.records ≡ some rs
      → api.marshal_entry p.priority (show ip) ≡ inl entry
      → api.marshal_change ≡ none
      → api.change_records (request_for rs entry) ≡ answered code change_body
      → update_beget show ip api p
        ≡ some (some (request_for rs entry), accept ip change_body (api.decode_change change_body))
  update_beget_ignores_status body entry change_body code d rs m g e s n f c a =
      update_beget-put_entry body d m g e s ∙ rw (n, f) (answer (code == 200) refl)
    where
      answer :
          (b : Bool)
          → (code == 200) ≡ b
          → put_entry ip api p (some rs) (inl entry)
            ≡ some
                (some (request_for rs entry), accept ip change_body (api.decode_change change_body))
      answer true h = unfold put_entry send change api_call in rw (c, a, h)
      answer false h = unfold put_entry send change api_call in rw (c, a, h)

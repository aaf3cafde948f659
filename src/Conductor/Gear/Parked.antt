-- ===== src/Conductor/Gear/Parked.antt =====
-- Parked fields: what a response has in the fields that were kept off the outbound message.
use fluxrig.Prelude.{
  ◌≡◌, ◌⊎◌, refl, sym, ap, ◌∙◌, Bool, true, false, List, [], ◌∷◌, Option, none, some, Bytes, equal,
  equal_iff, arith, All, inl, inr, Bool-cases, Option-cases, if◌then◌else◌,
}
use fluxrig.Message.{
  Value, Fields, end, Message, Metadata, get, get_path, set, set_path, split, done, conflict,
}
use fluxrig.Message.Paths.{diverge, get_path-end, get_path-set_path, get_path-set_path_other}
use fluxrig.Message.Open.{
  open_path, set_path_open, set_path_closed, open_path-split_end, open_path-set_path_other,
}
use fluxrig.Valet.{Ticket}
use fluxrig.Conductor.Gear.{
  Settings, knows, after_set, with_fields, restore_fields, restore_parked, finish_response,
  metadata_of, merge,
}

-- Each key is the field, or neither of their paths is the start of the other.
abbrev pub Separate : List Bytes → Bytes → Type 0
Separate keys f = All (λ k. (k ≡ f) ⊎ (diverge (split k) (split f) ≡ true)) keys

-- No part of the path before the last is a value that is no map.
abbrev pub is_open : Bytes → Message → Bool
is_open f m = elim m.fields [ none ↦ true | some fs ↦ open_path (split f) fs ]

-- The value that was parked, if there is one and the path is open; else the other.
abbrev pub restored : Option Value → Bool → Option Value → Option Value
restored none free w = w
restored (some v) free w = if free then some v else w

-- One field put back.
abbrev put_field : Bytes → Option Value → Fields → Fields
put_field k none fs = fs
put_field k (some v) fs = elim (set_path (split k) v fs) [ none ↦ fs | some fs' ↦ fs' ]

-- The same, of the reply.
abbrev put_back : Bytes → Option Value → Message → Message
put_back k o m = elim o [ none ↦ m | some v ↦ after_set (set k v m) m ]

set_made :
    (k : Bytes) (v : Value) (m : Message) (fs fs' : Fields)
    → m.fields ≡ some fs
    → set_path (split k) v fs ≡ some fs'
    → set k v m ≡ done (record m { fields = some fs' })
unfolding set
set_made k v m fs fs' h e = ground (arith, h, e)

set_refused :
    (k : Bytes) (v : Value) (m : Message) (fs : Fields)
    → m.fields ≡ some fs
    → set_path (split k) v fs ≡ none
    → set k v m ≡ conflict
unfolding set
set_refused k v m fs h e = ground (arith, h, e)

put_field-put_back :
    (k : Bytes) (o : Option Value) (m : Message) (fs : Fields)
    → m.fields ≡ some fs
    → (put_back k o m).fields ≡ some (put_field k o fs)
put_field-put_back k none m fs h = h
put_field-put_back k (some v) m fs h = elim (Option-cases (set_path (split k) v fs)) [
  | inl e ↦ rw (put_back, set_refused k v m fs h e, put_field, e) h
  | inr (fs', e) ↦ rw (put_back, set_made k v m fs fs' h e, put_field, e) refl
]

abbrev reads_back : Bytes → Option Value → Fields → Option Value
reads_back f o fs = restored o (open_path (split f) fs) (get_path (split f) fs)

either_way {ℓ} : {A : Type ℓ} (b : Bool) {x y z : A} → x ≡ z → y ≡ z → (if b then x else y) ≡ z
either_way true p q = p
either_way false p q = q

-- After the field is put back, putting it back again changes nothing that is read.
put_field-same :
    (f : Bytes) (o : Option Value) (fs : Fields)
    → (reads_back f o (put_field f o fs) ≡ reads_back f o fs)
      × (get_path (split f) (put_field f o fs) ≡ reads_back f o fs)
put_field-same f none fs = (refl, refl)
put_field-same f (some v) fs = elim (Bool-cases (open_path (split f) fs)) [
  | inr shut ↦
      let stays = set_path_closed (split f) v fs shut in rw (put_field, stays, shut) (refl, refl)
  | inl free ↦
      let (fs', made) = set_path_open (split f) v fs free in
      let there = get_path-set_path (split f) v fs fs' made in
      rw (put_field, made, free, there) (either_way (open_path (split f) fs') refl refl, refl)
]

put_field-other :
    (k f : Bytes) (o : Option Value) (fs : Fields)
    → diverge (split k) (split f) ≡ true
    → (open_path (split f) (put_field k o fs) ≡ open_path (split f) fs)
      × (get_path (split f) (put_field k o fs) ≡ get_path (split f) fs)
put_field-other k f none fs d = (refl, refl)
put_field-other k f (some v) fs d = elim (Option-cases (set_path (split k) v fs)) [
  | inl e ↦ rw (put_field, e) (refl, refl)
  | inr (fs', e) ↦
      rw (put_field, e)
        (
          open_path-set_path_other (split k) (split f) v fs fs' e d,
          get_path-set_path_other (split k) (split f) v fs fs' e d,
        )
]

get_at :
    (f : Bytes) (m : Message) (fs : Fields) → m.fields ≡ some fs → get f m ≡ get_path (split f) fs
unfolding get
get_at f m fs h = rw h refl

restore_fields-get :
    (keys : List Bytes) (request reply : Message) (f : Bytes) (fs : Fields)
    → reply.fields ≡ some fs
    → Separate keys f
    → get f (restore_fields keys request reply)
      ≡ (if knows keys f then reads_back f (get f request) fs else get_path (split f) fs)
unfolding restore_fields
restore_fields-get [] request reply f fs h sep = get_at f reply fs h
restore_fields-get (k ∷ keys) request reply f fs h (here, sep) =
    let o = get k request in
    let later =
      restore_fields-get keys request (put_back k o reply) f (put_field k o fs)
        (put_field-put_back k o reply fs h) sep in
    elim (Bool-cases (equal k f)) [
      | inl e ↦
          let same : k ≡ f = (equal_iff k f).0 e in
          let (kept, there) = put_field-same f (get f request) fs in
          later ∙ rw e (either_way (knows keys f) (rw same kept) (rw same there))
      | inr e ↦
          let (kept, there) = put_field-other k f o fs (apart e here) in
          later ∙ rw (e, kept, there) refl
    ]
  where
    apart :
        equal k f ≡ false
        → (k ≡ f) ⊎ (diverge (split k) (split f) ≡ true)
        → diverge (split k) (split f) ≡ true
    apart e (inl same) = let x = (equal_iff k f).1 same in cc
    apart e (inr d) = d

get_missing : (f : Bytes) (m : Message) → m.fields ≡ none → get f m ≡ none
unfolding get
get_missing f m h = rw h refl

is_open-missing : (f : Bytes) (m : Message) → m.fields ≡ none → is_open f m ≡ true
is_open-missing f m h = rw h refl

is_open-at :
    (f : Bytes) (m : Message) (fs : Fields)
    → m.fields ≡ some fs
    → is_open f m ≡ open_path (split f) fs
is_open-at f m fs h = rw h refl

with_fields-missing :
    (m : Message) → m.fields ≡ none → with_fields m ≡ record m { fields = some end }
with_fields-missing m h = ground (arith, h)

with_fields-at : (m : Message) (fs : Fields) → m.fields ≡ some fs → with_fields m ≡ m
with_fields-at m fs h = ground (arith, h)

restore_parked-get :
    (keys : List Bytes) (request reply : Message) (f : Bytes)
    → Separate keys f
    → get f (restore_parked keys (some request) reply) ≡ (
        if knows keys f
        then restored (get f request) (is_open f reply) (get f reply)
        else get f reply)
unfolding restore_parked
restore_parked-get [] request reply f sep = refl
restore_parked-get (k ∷ keys) request reply f sep = elim (Option-cases reply.fields) [
  | inl e ↦
      let later =
        restore_fields-get (k ∷ keys) request (record reply { fields = some end }) f end refl sep in
      let free : open_path (split f) end ≡ is_open f reply =
        open_path-split_end f ∙ sym (is_open-missing f reply e) in
      let absent : get_path (split f) end ≡ get f reply =
        get_path-end (split f) ∙ sym (get_missing f reply e) in
      ap (λ m. get f (restore_fields (k ∷ keys) request m)) (with_fields-missing reply e)
      ∙ rw (free, absent) at later
  | inr (fs, e) ↦
      let later = restore_fields-get (k ∷ keys) request reply f fs e sep in
      let free : open_path (split f) fs ≡ is_open f reply = sym (is_open-at f reply fs e) in
      ap (λ m. get f (restore_fields (k ∷ keys) request m)) (with_fields-at reply fs e)
      ∙ rw (free, sym (get_at f reply fs e)) at later
]

-- In the response to a request, a parked field has the value that it had in the request, if it had one
-- and the path of the field is open in the reply, and else what the reply has; every other field is as
-- in the reply. The path of each parked field is that of the field that is asked for, or neither is
-- the start of the other.
pub finish_response-get :
    (g : Settings) (t : Ticket) (request base : Message) (f : Bytes)
    → t.request ≡ some request
    → Separate g.park_fields f
    → get f (finish_response g t base) ≡ (
        if knows g.park_fields f
        then restored (get f request) (is_open f base) (get f base)
        else get f base)
unfolding finish_response
finish_response-get g t request base f h sep =
    same_fields t.return_ctx ∙ rw h (restore_parked-get g.park_fields request base f sep)
  where
    same_fields :
        (ctx : Metadata)
        → get f (elim ctx [
          | [] ↦ restore_parked g.park_fields t.request base
          | entry ∷ more ↦ record (restore_parked g.park_fields t.request base) {
            metadata =
                some (
                  merge (entry ∷ more) (metadata_of (restore_parked g.park_fields t.request base)));
          }
        ])
          ≡ get f (restore_parked g.park_fields t.request base)
    same_fields [] = refl
    same_fields (entry ∷ more) = unfold get in refl

-- ===== src/Schedule/Tests.antt =====
-- Runs of the schedule services on a small database.
use book_point.Base.{◌≡◌, refl, true, false, none, some, keep, arith}
use book_point.Repositories.{list_availabilities, list_overrides}
use book_point.Results.{err, overlapping_block, day_has_windows}
use book_point.Samples.{database, directory}
use book_point.Schedule.Availability.{
  ProviderAvailabilityCreate, ProviderAvailabilityUpdate, create_availability, update_availability,
}
use book_point.Schedule.History.{
  History-IsOrderly, IsOrderly, availability_updated, availability_created, edited,
  override_created, unedited,
}
use book_point.Schedule.Overrides.{ProviderDateOverrideCreate, create_override}
use book_point.Schedule.Windows.{WindowsApart, day_windows-apart}
use book_point.Scheduling.Slots.{day_windows}

-- Monday afternoon, after the block of the morning.
abbrev afternoon : ProviderAvailabilityCreate
afternoon = record {
  provider_id = 3;
  weekday = 0;
  start_time = 780;
  end_time = 900;
  is_active = true;
}

abbrev earlier : ProviderAvailabilityUpdate
earlier = record { weekday = none; start_time = some (some 660); end_time = none; is_active = none }

abbrev special_hours : ProviderDateOverrideCreate
special_hours = record {
  provider_id = 3;
  override_date = 1;
  is_available = true;
  start_time = some 600;
  end_time = some 660;
  is_active = true;
}

-- The block of the afternoon, moved to begin in the morning, overlaps the morning's.
moved_block_overlaps :
    (update_availability 10 earlier (create_availability afternoon database).1).0
    ≡ err overlapping_block
unfolding update_availability create_availability
moved_block_overlaps = refl

day_off_refused :
    (create_override
      (record special_hours { is_available = false; start_time = none; end_time = none })
      (create_override special_hours database).1).0
    ≡ err day_has_windows
unfolding create_override
day_off_refused = refl

database-IsOrderly : IsOrderly database
database-IsOrderly = record {
  weekly = ((omega arith, tt, tt), (omega arith, tt));
  dated = (tt, tt);
  timely = tt;
}

History-IsOrderly_example :
    IsOrderly
      (create_override special_hours
        (update_availability 10 earlier (create_availability afternoon database).1).1).1
History-IsOrderly_example =
    History-IsOrderly
      (edited
        (edited (edited unedited (availability_created afternoon database))
          (availability_updated 10 earlier (create_availability afternoon database).1))
        (override_created special_hours
          (update_availability 10 earlier (create_availability afternoon database).1).1))
      database-IsOrderly

day_windows-apart_example : WindowsApart (
    day_windows
      (keep (λ o. o.is_active) (list_overrides directory 3 1 7))
      (keep (λ a. a.is_active) (list_availabilities directory 3))
      1)
day_windows-apart_example =
    day_windows-apart 10 3 1 7 1 directory database-IsOrderly.weekly database-IsOrderly.dated

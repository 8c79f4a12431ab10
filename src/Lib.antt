-- ===== src/Lib.antt =====
-- VDevLab runs a program against a virtual device and reports what happened: a scenario file says
-- which faults are injected at which times, and which assertions the run has to pass. This library
-- models the Python package in `src/vdevlab/`.
--
-- `Scenario` is `src/vdevlab/scenario.py`. `Scenario.Document.parse_document` is `parse_scenario`
-- behind the YAML reader; `Scenario.Fields`, `Duration`, `Sections`, `Events` and `Assertions` are
-- the functions that it calls, and `Scenario.Schema` holds the constants and `ScenarioDefinition`. A
-- value that the reader returned is a `Value` of `Base.Value`, where a bool is no int, and an error
-- is the exception in a `Result` of `Base.Result`. A text holds no lone surrogates, which Python's
-- `str` may. A dict is a list of its entries in insertion order. `Scenario.Events.Shape` and
-- `Scenario.Assertions.Shape` are the events and the assertions as data, with the dicts that encode
-- them, and `Scenario.Document.Print` writes a whole scenario file, of which the parser is the
-- inverse. `Scenario.Reordered` relates documents whose fields stand in another order.
--
-- `Analysis` is `src/vdevlab/analysis.py`: `Analysis.Log` reads the application's output,
-- `Analysis.Recovery` is the loop of `calculate_recovery_metrics` with its variables as a record,
-- and `Analysis.Evaluate` has the `evaluate_...` functions. Timestamps are natural numbers, since
-- the log parser refuses others; a difference of two is an integer.
--
-- `Runner` is `src/vdevlab/runner.py`. Code that acts on the world is an `Action` of `Base.Action`:
-- it takes the state of the world and gives its result, or the exception it raises, with the state
-- that it leaves. `Runner.Fault` packs the structure of the ioctl and `Runner.Device` is
-- `LinuxDeviceBackend` over the kernel's calls; `Runner.Device.Messages` says what a device hears
-- of it, in the terms of `include/vdevlab.h`, and what the kernel accepts by `docs/fault-model.md`;
-- `Runner.Run.Delivered` follows a whole run down to the kernel's calls; `Runner.KernelLog` is
-- `DmesgKernelLogCollector`; `Runner.Process` is `ApplicationProcess` as sequential code over the
-- operations of the process and of the thread that collects its output; `Runner.Process.Threads` is
-- the same class as two threads that share its attributes, one step for each access, in every
-- interleaving. `Runner.Decode` and `Runner.Scheduler` are `ScenarioScheduler`; `Runner.Run` is
-- `ScenarioRunner`, over an `Environment` of the factories, the clock and the collector.
--
-- `Report` is `src/vdevlab/report.py`: `Report.Records` the report and its dict, `Report.Timeline`
-- the timelines and their stable sort, `Report.Documents` the documents of the assertions,
-- `Report.Build` the function `build_scenario_report`. `JUnit` is `src/vdevlab/junit.py` and `Cli`
-- is `src/vdevlab/cli.py`: its two commands over the `Services` that they use, and in `Cli.Main` the
-- function `main` with the argument parser as data. `Cli.Program` fills the services with the other
-- modules' functions, and `Cli.Reported` goes from a scenario file over its run to its report.
--
-- Parameters stand for what the package takes from elsewhere: argparse, the YAML and JSON readers
-- and writers, the file system, `dmesg`, processes and threads, the clock, the kernel's calls, and
-- the arithmetic of floats (`Base.Interpreter`; `Report.Timeline.Sorted.IntFloats` says what a
-- comparison of floats made of integers goes by). Integers are not bounded, as in Python, where only
-- `int` refuses a text of more than 4300 digits (`Scenario.Duration.int_of_text`); the fields of the
-- fault structure are checked against 32 bits where they are packed. The only fuel is that of
-- `Runner.Device.write`, one unit for each call of `os.write`, because a call that is interrupted is
-- repeated without a bound; `Runner.Device.Write` gives the fuel that is enough for a device that
-- accepts bytes. All other loops are structural.
--
-- Not modelled: that `load_scenario` normalises its path (`str(Path(path))`); the options with
-- which runner.py starts a process; the indentation and the text of the XML tree;
-- `src/vdevlab/__init__.py` but for the version, since it only passes names on; and the C code of
-- the kernel module and the tools, which is another language behind the device file.
pub mod Base
pub mod Scenario
pub mod Analysis
pub mod Runner
pub mod Report
pub mod JUnit
pub mod Cli
pub mod Tests
